-- ===== src/Rtcp/Reports.antt =====
-- Reading and writing the reports of backend/src/rtp/rtcp.rs.
use signal_calling_service.Prelude.{
  ℕ, zero, suc, ◌+◌, ◌*◌, ◌<◌, ◌≤◌, ◌≡◌, refl, ap, ◌∙◌, true, false, ◌||◌, ◌==◌, ltb, if-elim, List,
  [], ◌∷◌, ◌++◌, length, drop, Result, ok, err, and_then, arith, All,
}
use signal_calling_service.Bytes.{
  slice, parse_u32, be32, parse_u32-be32, parse_u24-be24, length-drop,
}
use signal_calling_service.Serialize.{to_vec}
use signal_calling_service.Rtcp.{
  RtcpHeader, ReportBlock, Malformed, block_at, block_writer, read_blocks, ReceiverReport,
  receiver_report_after_header, report_block_length, type_receiver_report,
}

-- Enough bytes for the blocks are read as that many blocks.
read_blocks-enough :
    (n : ℕ) (b : List ℕ)
    → n * 24 ≤ length b
    → (bs : List ReportBlock) × (read_blocks n b ≡ ok bs) × (length bs ≡ n)
read_blocks-enough zero b h = ([], refl, refl)
read_blocks-enough (suc n) b h =
    let rest = read_blocks-enough n (drop 24 b) (omega (arith, h, length-drop 24 b)) in
    (
      block_at b ∷ rest.0,
      ap (λ r. and_then r λ c. and_then (read_blocks n (drop 24 b)) λ bs. ok (c ∷ bs))
            (if-elim (λ r. r ≡ ok (block_at b)) (ltb (length b) report_block_length)
              (λ t. absurd (ground arith)) λ _. refl)
          ∙ ap (λ r. and_then r λ bs. ok (block_at b ∷ bs)) rest.1,
      omega (arith, rest.2),
    )

-- What the fields of a block can hold.
abbrev pub Fits : ReportBlock → Type 0
Fits b =
    (b.ssrc < 4294967296)
    × (b.cumulative_loss_count < 16777216)
    × (b.highest_sequence_num < 4294967296)
    × (b.jitter < 4294967296)
    × (b.last_sender_report < 4294967296)
    × (b.delay_last_sender_report < 4294967296)

block_at-block_writer :
    (b : ReportBlock) (rest : List ℕ) → Fits b → block_at (to_vec (block_writer b) ++ rest) ≡ b
block_at-block_writer b rest h =
    rw
      (
        parse_u32-be32 b.ssrc [] h.0,
        parse_u24-be24 b.cumulative_loss_count [] h.1,
        parse_u32-be32 b.highest_sequence_num [] h.2,
        parse_u32-be32 b.jitter [] h.3,
        parse_u32-be32 b.last_sender_report [] h.4,
        parse_u32-be32 b.delay_last_sender_report [] h.5,
      )
      refl

abbrev pub write_blocks : List ReportBlock → List ℕ
write_blocks [] = []
write_blocks (b ∷ bs) = to_vec (block_writer b) ++ write_blocks bs

length-write_blocks : (bs : List ReportBlock) → length (write_blocks bs) ≡ length bs * 24
length-write_blocks [] = refl
length-write_blocks (b ∷ bs) = omega (arith, length-write_blocks bs)

read_blocks-write_blocks :
    (bs : List ReportBlock) → All Fits bs → read_blocks (length bs) (write_blocks bs) ≡ ok bs
read_blocks-write_blocks [] h = refl
read_blocks-write_blocks (b ∷ bs) h =
    ap (λ r. and_then r λ c. and_then (read_blocks (length bs) (write_blocks bs)) λ cs. ok (c ∷ cs))
      (if-elim (λ r. r ≡ ok b)
        (ltb (length (to_vec (block_writer b) ++ write_blocks bs)) report_block_length)
        (λ t. absurd (ground arith)) (λ _. ap ok (block_at-block_writer b (write_blocks bs) h.0)))
    ∙ ap (λ r. and_then r λ cs. ok (b ∷ cs)) (read_blocks-write_blocks bs h.1)

-- The length test, as an inequality.
room :
    (w c n : ℕ)
    → (ltb (w * 4) (4 + c * report_block_length) || ltb n (w * 4)) ≡ false
    → 4 + c * 24 ≤ n
room w c n h = ground arith

no_room :
    (w c n k : ℕ)
    → w ≡ 1 + 6 * k
    → c ≡ k
    → n ≡ 4 + k * 24
    → (ltb (w * 4) (4 + c * report_block_length) || ltb n (w * 4)) ≡ true
    → ⊥
no_room w c n k hw hc hn h = ground arith

-- The payload of a receiver report.
abbrev pub write_receiver_report : ReceiverReport → List ℕ
write_receiver_report r = be32 r.sender_ssrc ++ write_blocks r.report_blocks

-- A receiver report whose header counts its blocks and its length is read back from its payload,
-- when each field fits in its bytes.
pub receiver_report-roundtrip :
    (r : ReceiverReport)
    → r.header.payload_type ≡ type_receiver_report
    → r.header.count_or_format ≡ length r.report_blocks
    → r.header.length_in_words ≡ 1 + 6 * length r.report_blocks
    → r.sender_ssrc < 4294967296
    → All Fits r.report_blocks
    → receiver_report_after_header (write_receiver_report r) r.header ≡ ok r
unfolding receiver_report_after_header
receiver_report-roundtrip r t c w s f =
    let Q : Result Malformed ReceiverReport → Type 0 = λ o. o ≡ ok r in
    let K : List ReportBlock → Result Malformed ReceiverReport = λ bs. ok (record {
      header = r.header;
      sender_ssrc = parse_u32 (slice 0 4 (write_receiver_report r));
      report_blocks = bs;
    }) in
    let size = length-write_blocks r.report_blocks in
    if-elim Q (r.header.payload_type == type_receiver_report)
      (λ _.
        if-elim Q
          (ltb (r.header.length_in_words * 4) (4 + r.header.count_or_format * report_block_length)
            || ltb (length (write_receiver_report r)) (r.header.length_in_words * 4))
          (λ bad. absurd (
            no_room r.header.length_in_words r.header.count_or_format
              (length (write_receiver_report r)) (length r.report_blocks) w c (omega (arith, size))
              bad))
          λ _.
            ap (λ n. and_then (read_blocks n (write_blocks r.report_blocks)) K) c
            ∙ ap (λ o. and_then o K) (read_blocks-write_blocks r.report_blocks f)
            ∙ ap (λ i. ok (record r { sender_ssrc = i })) (parse_u32-be32 r.sender_ssrc [] s))
      λ other. absurd (ground arith)

-- What a receiver report's reader answers.
abbrev pub Answer : List ℕ → RtcpHeader → Result Malformed ReceiverReport → Type 0
Answer value header (ok r) = (r.header ≡ header) × (length r.report_blocks ≡ header.count_or_format)
Answer value header (err (Malformed.unexpected_payload_type p)) =
    (p ≡ header.payload_type) × ((p == type_receiver_report) ≡ false)
Answer value header (err (Malformed.wrong_length l c n)) =
    (header.payload_type ≡ type_receiver_report)
    × (((ltb l (4 + c * report_block_length) || ltb n l)) ≡ true)
    × (l ≡ header.length_in_words * 4)
    × (c ≡ header.count_or_format)
    × (n ≡ length value)
Answer value header (err Malformed.too_few_bytes) = ⊥

-- A receiver report is refused only for its payload type or because its length leaves no room for
-- the blocks it counts or is more than the payload has; otherwise reading its blocks never runs out
-- of bytes, and as many are read as the header counts.
pub receiver_report-Answer :
    (value : List ℕ) (header : RtcpHeader)
    → Answer value header (receiver_report_after_header value header)
unfolding receiver_report_after_header
receiver_report-Answer value header =
    if-elim (Answer value header) (header.payload_type == type_receiver_report)
      (λ t.
        if-elim (Answer value header)
          (ltb (header.length_in_words * 4) (4 + header.count_or_format * report_block_length)
            || ltb (length value) (header.length_in_words * 4))
          (λ l. (ground arith, l, refl, refl, refl))
          λ l.
            let found = read_blocks-enough header.count_or_format (drop 4 value) (
              omega (
                arith,
                length-drop 4 value,
                room header.length_in_words header.count_or_format (length value) l,
              )) in
            rw found.1 (refl, found.2))
      λ f. (refl, f)

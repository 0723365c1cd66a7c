-- ===== src/Rtcp/Compound.antt =====
-- The loop over the packets of a decrypted compound packet in `parse_and_decrypt_in_place` of
-- backend/src/rtp/rtcp.rs, and `parse_nack` of backend/src/rtp/nack.rs.
use signal_calling_service.Prelude.{
  ℕ, zero, suc, ◌+◌, ◌*◌, ◌/◌, ◌%◌, ◌^◌, ◌<◌, ◌≤◌, ◌≡◌, refl, ◌⊎◌, inl, inr, Bool, false, ◌&&◌,
  ◌==◌, ltb, leb, if◌then◌else◌, if-elim, List, [], ◌∷◌, ◌++◌, map, keep, length, take, drop, subst,
  ◌-◌, Result, ok, err, Option, none, some, arith,
}
use signal_calling_service.Bytes.{parse_u32, length-drop}
use signal_calling_service.Rtcp.{
  RtcpHeader, ReceiverReport, SenderReport, Malformed, header_from_bytes, packet_length_in_bytes,
  rtcp_header_length, receiver_report_after_header, sender_report_after_header,
}

pub record Nack : Type 0 where
  pub ssrc : ℕ
  pub seqnums : List ℕ

-- `mask.ls_bit(index)`
abbrev pub ls_bit : ℕ → ℕ → Bool
ls_bit mask index = mask / 2 ^ index % 2 == 1

abbrev pub indices : List ℕ
indices = 0 ∷ 1 ∷ 2 ∷ 3 ∷ 4 ∷ 5 ∷ 6 ∷ 7 ∷ 8 ∷ 9 ∷ 10 ∷ 11 ∷ 12 ∷ 13 ∷ 14 ∷ 15 ∷ []

abbrev pub entry_seqnums : ℕ → ℕ → List ℕ
entry_seqnums first mask =
    first ∷ map (λ i. (first + (i + 1)) % 2 ^ 16) (keep (ls_bit mask) indices)

-- The entries of a nack; `none` when the reader runs out of bytes within one.
abbrev pub read_entries : List ℕ → Option (List ℕ)
read_entries [] = some []
read_entries (a ∷ b ∷ c ∷ d ∷ rest) = elim (read_entries rest) [
  | none ↦ none
  | some s ↦ some (entry_seqnums (a * 256 + b) (c * 256 + d) ++ s)
]
read_entries _ = none

-- `parse_nack`
abbrev pub parse_nack : List ℕ → Option Nack
parse_nack (a ∷ b ∷ c ∷ d ∷ rest) = elim (read_entries rest) [
  | none ↦ none
  | some s ↦ some (record { ssrc = parse_u32 (a ∷ b ∷ c ∷ d ∷ []); seqnums = s })
]
parse_nack _ = none

pub record ControlPacket : Type 0 where
  pub key_frame_requests : List ℕ
  pub tcc_feedbacks : List (List ℕ)
  pub nacks : List Nack
  pub sender_reports : List SenderReport
  pub receiver_reports : List ReceiverReport

abbrev pub nothing_received : ControlPacket
nothing_received = record {
  key_frame_requests = [];
  tcc_feedbacks = [];
  nacks = [];
  sender_reports = [];
  receiver_reports = [];
}

abbrev pub push_sender_report : Result Malformed SenderReport → ControlPacket → ControlPacket
push_sender_report (ok r) p = record p { sender_reports = p.sender_reports ++ (r ∷ []) }
push_sender_report (err e) p = p

abbrev pub push_receiver_report : Result Malformed ReceiverReport → ControlPacket → ControlPacket
push_receiver_report (ok r) p = record p { receiver_reports = p.receiver_reports ++ (r ∷ []) }
push_receiver_report (err e) p = p

abbrev pub push_nack : Option Nack → ControlPacket → ControlPacket
push_nack (some n) p = record p { nacks = p.nacks ++ (n ∷ []) }
push_nack none p = p

-- The `match` on the type and the format of a packet: `none` where the parser gives up.
unfoldable pub receive : RtcpHeader → List ℕ → ControlPacket → Option ControlPacket
receive header payload incoming =
    let feedback = drop 4 payload in
    let type = header.payload_type in
    let format = header.count_or_format in
    if type == 200
    then some (push_sender_report (sender_report_after_header payload header) incoming)
    else if type == 201
    then some (push_receiver_report (receiver_report_after_header payload header) incoming)
    else if type == 205 && format == 1
    then some (push_nack (parse_nack feedback) incoming)
    else if type == 205 && format == 15
    then some (record incoming { tcc_feedbacks = incoming.tcc_feedbacks ++ (feedback ∷ []) })
    else if type == 206 && format == 1
    then if ltb (length feedback) 4
      then none
      else some (record incoming {
        key_frame_requests = incoming.key_frame_requests ++ (parse_u32 (take 4 feedback) ∷ []);
      })
    else some incoming

-- A turn of the loop: it stops with an answer, or goes on with the packets that are left.
pub data Turn : Type 0 where
  stop : Option ControlPacket → Turn
  go : List ℕ → ControlPacket → Turn

abbrev pub go_on : List ℕ → Option ControlPacket → Turn
go_on rest none = stop none
go_on rest (some p) = go rest p

unfoldable pub turn : List ℕ → ControlPacket → Turn
turn packets incoming =
    let header = header_from_bytes packets in
    let len = packet_length_in_bytes header in
    if leb rtcp_header_length (length packets)
    then if header.length_in_words == 0
      then stop none
      else if ltb (length packets) len
      then stop none
      else go_on (drop len packets)
          (receive header (drop rtcp_header_length (take len packets)) incoming)
    else stop (some incoming)

-- The loop, with fuel: the outer `none` is a loop that has not ended.
unfoldable pub parse_compound : ℕ → List ℕ → ControlPacket → Option (Option ControlPacket)
parse_compound zero packets incoming = none
parse_compound (suc fuel) packets incoming = elim (turn packets incoming) [
  | stop r ↦ some r
  | go rest p ↦ parse_compound fuel rest p
]

Turn-cases :
    (t : Turn)
    → ((r : Option ControlPacket) × (t ≡ stop r))
      ⊎ ((l : List ℕ) × (p : ControlPacket) × (t ≡ go l p))
Turn-cases (stop r) = inl (r, refl)
Turn-cases (go l p) = inr (l, p, refl)

-- What is left is shorter by a header and the word behind it, at least.
abbrev Shrinks : List ℕ → Turn → Type 0
Shrinks packets (stop r) = Unit
Shrinks packets (go rest p) = 8 + length rest ≤ length packets

go_on-Shrinks :
    (packets rest : List ℕ) (r : Option ControlPacket)
    → 8 + length rest ≤ length packets
    → Shrinks packets (go_on rest r)
go_on-Shrinks packets rest none h = tt
go_on-Shrinks packets rest (some p) h = h

shorter :
    (len w n k : ℕ)
    → len ≡ (w + 1) * 4
    → (w == 0) ≡ false
    → ltb n len ≡ false
    → k ≡ n - len
    → 8 + k ≤ n
shorter len w n k a b c d = ground arith

turn-Shrinks : (packets : List ℕ) (p : ControlPacket) → Shrinks packets (turn packets p)
unfolding turn
turn-Shrinks packets p =
    if-elim (Shrinks packets) (leb rtcp_header_length (length packets))
      (λ _.
        if-elim (Shrinks packets) ((header_from_bytes packets).length_in_words == 0) (λ _. tt)
          λ w.
            if-elim (Shrinks packets)
              (ltb (length packets) (packet_length_in_bytes (header_from_bytes packets))) (λ _. tt)
              λ l. go_on-Shrinks packets _ _ (
                shorter (packet_length_in_bytes (header_from_bytes packets))
                  (header_from_bytes packets).length_in_words (length packets) _ refl w l
                  (length-drop (packet_length_in_bytes (header_from_bytes packets)) packets)))
      λ _. tt

-- The loop over a compound packet ends for every byte string: fuel for its length is enough.
pub parse_compound-ends :
    (fuel : ℕ) (packets : List ℕ) (incoming : ControlPacket)
    → length packets < fuel
    → (r : Option ControlPacket) × (parse_compound fuel packets incoming ≡ some r)
unfolding parse_compound
parse_compound-ends zero packets incoming h = absurd (omega arith)
parse_compound-ends (suc fuel) packets incoming h = elim (Turn-cases (turn packets incoming)) [
  | inl (r, t) ↦ rw (t, parse_compound) (r, refl)
  | inr (rest, p, t) ↦
      let shrinks = subst (Shrinks packets) t (turn-Shrinks packets incoming) in
      rw (t, parse_compound) (parse_compound-ends fuel rest p (omega (arith, h, shrinks)))
]

-- ===== src/Rtcp.antt =====
-- backend/src/rtp/rtcp.rs: the RTCP packets in a decrypted compound packet, with the sender and
-- receiver reports, and `parse_nack` of backend/src/rtp/nack.rs. Encryption and the statistics that
-- are computed from reports are not part of this model.
pub mod Compound
pub mod Nacks
pub mod Reports
mod Examples
use signal_calling_service.Prelude.{
  ℕ, zero, suc, ◌+◌, ◌*◌, ◌/◌, ◌%◌, ◌^◌, bit_and, Bool, true, false, ◌&&◌, ◌||◌, ◌==◌, ltb, leb,
  if◌then◌else◌, List, [], ◌∷◌, ◌++◌, map, keep, length, drop, Result, ok, err, and_then, Option,
  none, some,
}
use signal_calling_service.Bytes.{slice, parse_u16, parse_u24, parse_u32}
use signal_calling_service.Serialize.{Writer, empty, bytes, u16, u24, u32, u64, both, tuple, to_vec}

abbrev pub rtcp_header_length : ℕ
rtcp_header_length = 4

abbrev pub type_sender_report : ℕ
type_sender_report = 200

abbrev pub type_receiver_report : ℕ
type_receiver_report = 201

-- `RtcpHeader`
pub record RtcpHeader : Type 0 where
  pub has_padding : Bool
  pub count_or_format : ℕ
  pub payload_type : ℕ
  pub length_in_words : ℕ

abbrev pub byte_at : ℕ → List ℕ → ℕ
byte_at n [] = 0
byte_at zero (x ∷ xs) = x
byte_at (suc n) (x ∷ xs) = byte_at n xs

-- `RtcpHeader::from_bytes`, for at least 4 bytes.
abbrev pub header_from_bytes : List ℕ → RtcpHeader
header_from_bytes value = record {
  has_padding = ltb 0 (bit_and (byte_at 0 value) 32);
  count_or_format = bit_and (byte_at 0 value) 31;
  payload_type = byte_at 1 value;
  length_in_words = parse_u16 (slice 2 4 value);
}

abbrev pub packet_length_in_bytes : RtcpHeader → ℕ
packet_length_in_bytes h = (h.length_in_words + 1) * 4

pub record ReportBlock : Type 0 where
  pub ssrc : ℕ
  pub fraction_loss : ℕ
  pub cumulative_loss_count : ℕ
  pub highest_sequence_num : ℕ
  pub jitter : ℕ
  pub last_sender_report : ℕ
  pub delay_last_sender_report : ℕ

-- The reasons for which a report is malformed; in the source they are messages.
pub data Malformed : Type 0 where
  unexpected_payload_type : ℕ → Malformed
  wrong_length : ℕ → ℕ → ℕ → Malformed
  too_few_bytes : Malformed

abbrev pub report_block_length : ℕ
report_block_length = 24

-- `ReportBlock::from_bytes`
abbrev pub block_at : List ℕ → ReportBlock
block_at value = record {
  ssrc = parse_u32 (slice 0 4 value);
  fraction_loss = byte_at 4 value;
  cumulative_loss_count = parse_u24 (slice 5 8 value);
  highest_sequence_num = parse_u32 (slice 8 12 value);
  jitter = parse_u32 (slice 12 16 value);
  last_sender_report = parse_u32 (slice 16 20 value);
  delay_last_sender_report = parse_u32 (slice 20 24 value);
}

abbrev pub block_from_bytes : List ℕ → Result Malformed ReportBlock
block_from_bytes value =
    if ltb (length value) report_block_length then err too_few_bytes else ok (block_at value)

-- `ReportBlock::write`
abbrev pub block_writer : ReportBlock → Writer
block_writer b = tuple (
    u32 b.ssrc
    ∷ bytes (b.fraction_loss ∷ [])
    ∷ u24 b.cumulative_loss_count
    ∷ u32 b.highest_sequence_num
    ∷ u32 b.jitter
    ∷ u32 b.last_sender_report
    ∷ u32 b.delay_last_sender_report
    ∷ [])

-- The loop that reads the blocks of a report: this many of them are missing.
abbrev pub read_blocks : ℕ → List ℕ → Result Malformed (List ReportBlock)
read_blocks zero bytes_left = ok []
read_blocks (suc n) bytes_left =
    and_then (block_from_bytes bytes_left)
      λ b. and_then (read_blocks n (drop report_block_length bytes_left)) λ bs. ok (b ∷ bs)

pub record ReceiverReport : Type 0 where
  pub header : RtcpHeader
  pub sender_ssrc : ℕ
  pub report_blocks : List ReportBlock

-- `ReceiverReport::from_bytes_after_header`
unfoldable pub receiver_report_after_header : List ℕ → RtcpHeader → Result Malformed ReceiverReport
receiver_report_after_header value header =
    let header_length = header.length_in_words * 4 in
    let minimum_expected_length = 4 + header.count_or_format * report_block_length in
    if header.payload_type == type_receiver_report
    then if ltb header_length minimum_expected_length || ltb (length value) header_length
      then err (wrong_length header_length header.count_or_format (length value))
      else (and_then (read_blocks header.count_or_format (drop 4 value)) λ bs. ok (record {
        header = header;
        sender_ssrc = parse_u32 (slice 0 4 value);
        report_blocks = bs;
      }))
    else err (unexpected_payload_type header.payload_type)

pub record SenderInfo : Type 0 where
  pub ssrc : ℕ
  pub ntp_ts : ℕ
  pub rtp_ts : ℕ
  pub packet_count : ℕ
  pub octet_count : ℕ

-- `SenderInfo::from_bytes`: `parse_u64` is two halves here.
abbrev pub sender_info_at : List ℕ → SenderInfo
sender_info_at b = record {
  ssrc = parse_u32 (slice 0 4 b);
  ntp_ts = parse_u32 (slice 4 8 b) * 2 ^ 32 + parse_u32 (slice 8 12 b);
  rtp_ts = parse_u32 (slice 12 16 b);
  packet_count = parse_u32 (slice 16 20 b);
  octet_count = parse_u32 (slice 20 24 b);
}

pub record SenderReport : Type 0 where
  pub header : RtcpHeader
  pub sender_info : SenderInfo
  pub report_blocks : List ReportBlock

-- `SenderReport::from_bytes_after_header`
unfoldable pub sender_report_after_header : List ℕ → RtcpHeader → Result Malformed SenderReport
sender_report_after_header value header =
    let header_length = header.length_in_words * 4 in
    let minimum_expected_length = 24 + header.count_or_format * report_block_length in
    if header.payload_type == type_sender_report
    then if ltb header_length minimum_expected_length || ltb (length value) header_length
      then err (wrong_length header_length header.count_or_format (length value))
      else (and_then (read_blocks header.count_or_format (drop 24 value)) λ bs.
          ok (record { header = header; sender_info = sender_info_at value; report_blocks = bs }))
    else err (unexpected_payload_type header.payload_type)

-- ===== src/Rtcp/Examples.antt =====
-- The theorems on reports and rates at concrete inputs.
use signal_calling_service.Prelude.{
  ℕ, ◌/◌, ◌≤◌, ◌≡◌, false, if◌then◌else◌, leb, some, none, List, [], ◌∷◌, drop, arith,
}
use signal_calling_service.Rtcp.{RtcpHeader, receiver_report_after_header}
use signal_calling_service.Rtcp.Reports.{Answer, receiver_report-Answer}
use signal_calling_service.Serialize.{to_vec}
use signal_calling_service.Rtcp.Compound.{parse_nack}
use signal_calling_service.Rtcp.Nacks.{write_nack}
use signal_calling_service.Rtcp.Nacks.RoundTrip.{parse_nack-write_nack}
use signal_calling_service.Rates.{
  Event, pushed, updated, history_of, new_tracker, update, total, kept_count, oldest,
  duration_since, min_duration, update-tracks,
}

abbrev no_blocks : RtcpHeader
no_blocks = record {
  has_padding = false;
  count_or_format = 0;
  payload_type = 201;
  length_in_words = 1;
}

receiver_report-Answer_example :
    Answer
      (0 ∷ 0 ∷ 0 ∷ 5 ∷ [])
      no_blocks
      (receiver_report_after_header (0 ∷ 0 ∷ 0 ∷ 5 ∷ []) no_blocks)
receiver_report-Answer_example = receiver_report-Answer (0 ∷ 0 ∷ 0 ∷ 5 ∷ []) no_blocks

abbrev quotient : ℕ → ℕ → ℕ
quotient bits duration = bits / duration

abbrev latest : ℕ → ℕ → ℕ
latest last rate = rate

abbrev events : List Event
events = pushed 800 5_000_000_000 ∷ updated 5_100_000_000 ∷ pushed 400 5_200_000_000 ∷ []

update-tracks_example :
    let before = history_of quotient latest events new_tracker in
    let after = update quotient latest 5_900_000_000 before in
    (before.accumulated_size ≡ total before.history)
    × (total (drop (kept_count 5_900_000_000 before.history) before.history)
        ≤ before.accumulated_size)
    × (after.rate ≡ (
        if leb min_duration (duration_since 5_900_000_000 (oldest after.history))
        then some
            (quotient (total after.history) (duration_since 5_900_000_000 (oldest after.history)))
        else none))
update-tracks_example = update-tracks quotient latest events 5_900_000_000

parse_nack-write_nack_example :
    parse_nack (to_vec (write_nack 16909060 (65534 ∷ 65535 ∷ 65538 ∷ 70000 ∷ [])))
    ≡ some (record { ssrc = 16909060; seqnums = 65534 ∷ 65535 ∷ 2 ∷ 4464 ∷ [] })
parse_nack-write_nack_example =
    parse_nack-write_nack 16909060 (65534 ∷ 65535 ∷ 65538 ∷ 70000 ∷ []) (omega arith)
      (omega arith, (omega arith, (omega arith, tt)))

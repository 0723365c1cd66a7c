-- ===== src/Rtp/Rtx.antt =====
-- `RtxSender` of backend/src/rtp/rtx.rs: packets that were sent are remembered, and sent again on
-- request under the numbers of the RTX stream. Metrics are left out.
pub mod Resend
pub mod Numbers
use signal_calling_service.Prelude.{
  ℕ, ◌+◌, ◌%◌, ◌^◌, Bool, true, false, ◌&&◌, Option, none, some, List, [], ◌∷◌, unwrap_or, ◌==◌,
  if◌then◌else◌, length,
}
use signal_calling_service.Prelude.Dict as Dict
use signal_calling_service.Collections.TwoGeneration as TwoGeneration
use signal_calling_service.Collections.TwoGeneration.{TwoGenerationCache}
use signal_calling_service.Rtp.Packet.{
  Packet, ssrc, seqnum, is_past_deadline, to_rtx, to_rtx_ssrc, set_tcc_seqnum_in_header_if_present,
}

-- An SSRC and a truncated sequence number.
abbrev pub Key : Type 0
Key = ℕ × ℕ

abbrev pub same_key : Key → Key → Bool
same_key a b = (a.0 == b.0) && (a.1 == b.1)

pub record RtxSender : Type 0 where
  pub previously_sent_by_seqnum : TwoGenerationCache Key Packet
  pub next_outgoing_seqnum_by_ssrc : List (ℕ × ℕ)

abbrev pub new_rtx_sender : ℕ → ℕ → RtxSender
new_rtx_sender limit now = record {
  previously_sent_by_seqnum = TwoGeneration.new_cache limit now;
  next_outgoing_seqnum_by_ssrc = [];
}

-- `get_next_seqnum_mut`: the entry is made, with 1, if there is none.
unfoldable pub next_seqnum : ℕ → RtxSender → ℕ
next_seqnum rtx_ssrc s = unwrap_or (Dict.get rtx_ssrc s.next_outgoing_seqnum_by_ssrc) 1

unfoldable pub set_next_seqnum : ℕ → ℕ → RtxSender → RtxSender
set_next_seqnum rtx_ssrc n s = record s {
  next_outgoing_seqnum_by_ssrc = Dict.insert rtx_ssrc n s.next_outgoing_seqnum_by_ssrc;
}

-- The number that a packet on the stream gets, also the padding of `send_padding`.
unfoldable pub increment_seqnum : ℕ → RtxSender → ℕ × RtxSender
increment_seqnum rtx_ssrc s =
    (next_seqnum rtx_ssrc s, set_next_seqnum rtx_ssrc (next_seqnum rtx_ssrc s + 1) s)

unfoldable pub remember_sent : Packet → ℕ → RtxSender → RtxSender
remember_sent outgoing departed s = if is_past_deadline departed outgoing then s else record s {
  previously_sent_by_seqnum =
      TwoGeneration.insert same_key (ssrc outgoing, seqnum outgoing % 2 ^ 16) outgoing departed
        s.previously_sent_by_seqnum;
}

abbrev pub set_pending : Bool → Packet → Packet
set_pending b p = record p { pending_retransmission = b }

-- The packet to send again, if any, whether the transport number `tcc_seqnum` is used up, and the
-- state. The first step of the code makes the counter's entry, whatever follows.
unfoldable pub resend : Option Packet → Key → ℕ → ℕ → RtxSender → Option Packet × Bool × RtxSender
resend none key now tcc_seqnum s = (none, false, s)
resend (some previously_sent) key now tcc_seqnum s =
    if previously_sent.pending_retransmission
    then (none, false, s)
    else if is_past_deadline now previously_sent
    then (none, false, s)
    else let rtx_ssrc = to_rtx_ssrc key.0 in
      let rtx = to_rtx (next_seqnum rtx_ssrc s) (set_pending true previously_sent) in
      let numbered = set_tcc_seqnum_in_header_if_present tcc_seqnum rtx in
      (
        some numbered.1,
        numbered.0,
        (increment_seqnum rtx_ssrc (record s {
          previously_sent_by_seqnum =
              TwoGeneration.get_mut same_key (set_pending true) key s.previously_sent_by_seqnum;
        })).1,
      )

unfoldable pub resend_as_rtx : ℕ → ℕ → ℕ → ℕ → RtxSender → Option Packet × Bool × RtxSender
resend_as_rtx sent_ssrc sent_seqnum now tcc_seqnum s =
    let rtx_ssrc = to_rtx_ssrc sent_ssrc in
    let entered = set_next_seqnum rtx_ssrc (next_seqnum rtx_ssrc s) s in
    resend (TwoGeneration.get same_key (sent_ssrc, sent_seqnum) s.previously_sent_by_seqnum)
      (sent_ssrc, sent_seqnum) now tcc_seqnum entered

unfoldable pub mark_as_sent : ℕ → ℕ → RtxSender → RtxSender
mark_as_sent sent_ssrc sent_seqnum s = record s {
  previously_sent_by_seqnum =
      TwoGeneration.get_mut same_key (set_pending false) (sent_ssrc, sent_seqnum)
        s.previously_sent_by_seqnum;
}

abbrev total_length : List (Key × Packet) → ℕ
total_length [] = 0
total_length ((k, p) ∷ m) = length p.serialized + total_length m

-- How many packets are remembered, and their bytes.
abbrev pub remembered_packet_stats : RtxSender → ℕ × ℕ
remembered_packet_stats s =
    let m = TwoGeneration.iter s.previously_sent_by_seqnum in (length m, total_length m)

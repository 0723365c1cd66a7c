-- ===== src/Call/Simulcast.antt =====
-- `Vp8SimulcastRtpForwarder` of backend/src/call.rs: several video layers, each a stream with its
-- own SSRC, forwarded as one.
pub mod Order
pub mod History
pub mod Switch
pub mod Desire
use signal_calling_service.Prelude.{
  ℕ, Bool, true, false, ◌&&◌, Option, none, some, ◌==◌, opt_eq, is_some, if◌then◌else◌, not,
}
use signal_calling_service.Vp8.{ParsedHeader, expand_picture_id, expand_tl0_pic_idx}
use signal_calling_service.Rtp.{DependencyDescriptor, expand_timestamp, expand_frame_number}
use signal_calling_service.Call.Ids.{
  Vp8RewrittenIds, default_ids, ids_checked_sub, ids_checked_add, ids_max,
}

pub data VideoHeader : Type 0 where
  vp8 : ParsedHeader → VideoHeader
  dependency_descriptor : DependencyDescriptor → VideoHeader

abbrev pub is_key_frame : VideoHeader → Bool
is_key_frame (vp8 h) = h.is_key_frame
is_key_frame (dependency_descriptor d) = d.is_key_frame

abbrev pub picture_id : VideoHeader → Option ℕ
picture_id (vp8 h) = h.picture_id
picture_id (dependency_descriptor d) = none

abbrev pub tl0_pic_idx : VideoHeader → Option ℕ
tl0_pic_idx (vp8 h) = h.tl0_pic_idx
tl0_pic_idx (dependency_descriptor d) = none

abbrev pub truncated_frame_number : VideoHeader → Option ℕ
truncated_frame_number (vp8 h) = none
truncated_frame_number (dependency_descriptor d) = d.truncated_frame_number

-- What the forwarder reads of an incoming `rtp::Packet`; the sequence number is already expanded.
pub record IncomingRtp : Type 0 where
  pub ssrc : ℕ
  pub seqnum : ℕ
  pub timestamp : ℕ

pub data SwitchingState : Type 0 where
  do_not_switch : SwitchingState
  switch_at_next_key_frame : ℕ → SwitchingState

-- The fields of `Vp8SimulcastRtpForwardingState::Forwarding`.
pub record Stream : Type 0 where
  pub incoming_ssrc : ℕ
  pub needs_key_frame : Bool
  pub first_incoming : Vp8RewrittenIds
  pub first_outgoing : Vp8RewrittenIds
  pub max_incoming : Vp8RewrittenIds

pub data ForwardingState : Type 0 where
  paused : ForwardingState
  forwarding : Stream → ForwardingState

pub record SimulcastForwarder : Type 0 where
  pub outgoing_ssrc : ℕ
  pub state : ForwardingState
  pub switching : SwitchingState
  pub max_outgoing : Vp8RewrittenIds

unfoldable pub new_forwarder : ℕ → SimulcastForwarder
new_forwarder outgoing_ssrc = record {
  outgoing_ssrc = outgoing_ssrc;
  state = paused;
  switching = do_not_switch;
  max_outgoing = default_ids;
}

abbrev pub switching_ssrc_of : SwitchingState → Option ℕ
switching_ssrc_of do_not_switch = none
switching_ssrc_of (switch_at_next_key_frame ssrc) = some ssrc

abbrev pub forwarding_ssrc_of : ForwardingState → Option ℕ
forwarding_ssrc_of paused = none
forwarding_ssrc_of (forwarding s) = some s.incoming_ssrc

abbrev pub switching_ssrc : SimulcastForwarder → Option ℕ
switching_ssrc f = switching_ssrc_of f.switching

abbrev pub forwarding_ssrc : SimulcastForwarder → Option ℕ
forwarding_ssrc f = forwarding_ssrc_of f.state

abbrev key_frame_wanted : SwitchingState → ForwardingState → Option ℕ
key_frame_wanted (switch_at_next_key_frame ssrc) st = some ssrc
key_frame_wanted do_not_switch paused = none
key_frame_wanted do_not_switch (forwarding s) =
    if s.needs_key_frame then some s.incoming_ssrc else none

unfoldable pub needs_key_frame : SimulcastForwarder → Option ℕ
needs_key_frame f = key_frame_wanted f.switching f.state

-- `set_desired_ssrc`. The branch for an SSRC that is forwarded while another is waited for only
-- logs, as in the source.
unfoldable pub set_desired_ssrc : SimulcastForwarder → Option ℕ → SimulcastForwarder
set_desired_ssrc f none = record f { state = paused; switching = do_not_switch }
set_desired_ssrc f (some desired) =
    if not (opt_eq (forwarding_ssrc f) (some desired))
      && not (opt_eq (switching_ssrc f) (some desired))
    then record f { switching = switch_at_next_key_frame desired }
    else f

abbrev mark : ForwardingState → ForwardingState
mark paused = paused
mark (forwarding s) = forwarding (record s { needs_key_frame = true })

unfoldable pub set_needs_key_frame : SimulcastForwarder → SimulcastForwarder
set_needs_key_frame f = record f { state = mark f.state }

-- A VP8 header has both its numbers, a dependency descriptor has neither.
abbrev pub well_formed : VideoHeader → Bool
well_formed (vp8 h) = is_some h.picture_id && is_some h.tl0_pic_idx
well_formed (dependency_descriptor d) = true

abbrev pub first_ids : IncomingRtp → VideoHeader → Vp8RewrittenIds
first_ids p h = record {
  seqnum = p.seqnum;
  timestamp = p.timestamp;
  picture_id = picture_id h;
  tl0_pic_idx = tl0_pic_idx h;
  frame_number = truncated_frame_number h;
}

abbrev pub switch_gap : Vp8RewrittenIds
switch_gap = record {
  seqnum = 2;
  timestamp = 1;
  picture_id = some 1;
  tl0_pic_idx = some 1;
  frame_number = some 1;
}

-- The first half of `forward_vp8_rtp`: a key frame of the awaited SSRC switches to it. None when
-- the `?` on the addition returns.
unfoldable pub begin_forwarding :
    SimulcastForwarder → IncomingRtp → VideoHeader → Option SimulcastForwarder
begin_forwarding f p h =
    if opt_eq (switching_ssrc f) (some p.ssrc) && is_key_frame h
    then elim (ids_checked_add f.max_outgoing switch_gap) [
      | none ↦ none
      | some first_outgoing ↦ some (record f {
        state = forwarding (record {
          incoming_ssrc = p.ssrc;
          needs_key_frame = false;
          first_incoming = first_ids p h;
          first_outgoing = first_outgoing;
          max_incoming = first_ids p h;
        });
        switching = do_not_switch;
        max_outgoing = first_outgoing;
      })
    ]
    else some f

-- Expands a number against a maximum where there are both; the new maximum is the second part.
abbrev pub expand_opt : (ℕ → ℕ → ℕ × ℕ) → Option ℕ → Option ℕ → Option ℕ × Option ℕ
expand_opt expand none m = (none, m)
expand_opt expand (some t) none = (none, none)
expand_opt expand (some t) (some m) = let (full, m') = expand t m in (some full, some m')

-- The incoming numbers in full, and the new maxima. `max_incoming.seqnum` is never updated.
unfoldable pub expand_ids :
    IncomingRtp → VideoHeader → Vp8RewrittenIds → Vp8RewrittenIds × Vp8RewrittenIds
expand_ids p h m =
    let (pic, pic_max) = expand_opt expand_picture_id (picture_id h) m.picture_id in
    let (tl0, tl0_max) = expand_opt expand_tl0_pic_idx (tl0_pic_idx h) m.tl0_pic_idx in
    let (frame, frame_max) =
      expand_opt expand_frame_number (truncated_frame_number h) m.frame_number in
    let (time, time_max) = expand_timestamp p.timestamp m.timestamp in
    (
      record {
        seqnum = p.seqnum;
        timestamp = time;
        picture_id = pic;
        tl0_pic_idx = tl0;
        frame_number = frame;
      },
      record m {
        timestamp = time_max;
        picture_id = pic_max;
        tl0_pic_idx = tl0_max;
        frame_number = frame_max;
      },
    )

abbrev pub Sent : Type 0
Sent = ℕ × Vp8RewrittenIds

abbrev pub rewrite_ids : Stream → Vp8RewrittenIds → Option Vp8RewrittenIds
rewrite_ids s incoming = elim (ids_checked_sub incoming s.first_incoming) [
  | none ↦ none
  | some delta ↦ ids_checked_add s.first_outgoing delta
]

-- The second half, for a packet of the stream that is forwarded. The maxima are updated before the
-- `?`s may return.
unfoldable pub forward_stream :
    SimulcastForwarder → Stream → IncomingRtp → VideoHeader → Option Sent × SimulcastForwarder
forward_stream f s p h =
    let (incoming, max_incoming) = expand_ids p h s.max_incoming in
    let s' = record s { max_incoming = max_incoming } in
    elim (rewrite_ids s incoming) [
      | none ↦ (none, record f { state = forwarding s' })
      | some outgoing ↦ (
        some (f.outgoing_ssrc, outgoing),
        record f {
          state =
              forwarding (record s' {
                needs_key_frame = if is_key_frame h then false else s.needs_key_frame;
              });
          max_outgoing = ids_max f.max_outgoing outgoing;
        },
      )
    ]

unfoldable pub forward_current :
    ForwardingState
    → SimulcastForwarder
    → IncomingRtp
    → VideoHeader
    → Option Sent × SimulcastForwarder
forward_current paused f p h = (none, f)
forward_current (forwarding s) f p h =
    if s.incoming_ssrc == p.ssrc then forward_stream f s p h else (none, f)

unfoldable pub forward_vp8_rtp :
    SimulcastForwarder → IncomingRtp → VideoHeader → Option Sent × SimulcastForwarder
forward_vp8_rtp f p h =
    if well_formed h
    then elim (begin_forwarding f p h) [
      | none ↦ (none, f)
      | some f' ↦ forward_current f'.state f' p h
    ]
    else (none, f)

-- ===== src/Call/Simulcast/Switch.antt =====
-- What the simulcast forwarder does around a switch of layer.
use signal_calling_service.Prelude.{
  ℕ, ◌+◌, ◌^◌, ◌<◌, ◌≡◌, refl, true, false, Option, none, some, arith, ==_refl,
}
use signal_calling_service.Counters.{expand_truncated_counter}
use signal_calling_service.Vp8.{expand_picture_id, expand_tl0_pic_idx}
use signal_calling_service.Rtp.{expand_timestamp, expand_frame_number}
use signal_calling_service.Call.Ids.{Vp8RewrittenIds, ids_checked_add, ids_checked_sub, ids_max}
use signal_calling_service.Call.Simulcast.{
  SimulcastForwarder, forwarding, do_not_switch, switch_at_next_key_frame, Stream, IncomingRtp,
  VideoHeader, forward_vp8_rtp, forward_stream, forward_current, begin_forwarding, expand_ids,
  rewrite_ids, switch_gap, is_key_frame, well_formed, picture_id, tl0_pic_idx,
  truncated_frame_number, forwarding_ssrc, needs_key_frame, first_ids, expand_opt,
}

abbrev pub InRange : ℕ → Option ℕ → Type 0
InRange n none = Unit {0}
InRange n (some x) = x < n

-- The numbers of a packet fit their fields on the wire.
pub record FitsWire (p : IncomingRtp) (h : VideoHeader) : Type 0 where
  pub timestamp_fits : p.timestamp < 2 ^ 32
  pub picture_id_fits : InRange (2 ^ 15) (picture_id h)
  pub tl0_pic_idx_fits : InRange (2 ^ 8) (tl0_pic_idx h)
  pub frame_number_fits : InRange (2 ^ 16) (truncated_frame_number h)

-- A number that the header has is replaced, one that it lacks stays away.
abbrev pub relabel : Option ℕ → ℕ → Option ℕ
relabel none v = none
relabel (some x) v = some v

expand_timestamp_self : (x : ℕ) → x < 2 ^ 32 → expand_timestamp x x ≡ (x, x)
unfolding expand_timestamp expand_truncated_counter
expand_timestamp_self x h = ground arith

expand_frame_number_self : (x : ℕ) → x < 2 ^ 16 → expand_frame_number x x ≡ (x, x)
unfolding expand_frame_number expand_truncated_counter
expand_frame_number_self x h = ground arith

expand_picture_id_self : (x : ℕ) → x < 2 ^ 15 → expand_picture_id x x ≡ (x, x)
unfolding expand_picture_id expand_truncated_counter
expand_picture_id_self x h = ground arith

expand_tl0_pic_idx_self : (x : ℕ) → x < 2 ^ 8 → expand_tl0_pic_idx x x ≡ (x, x)
unfolding expand_tl0_pic_idx expand_truncated_counter
expand_tl0_pic_idx_self x h = ground arith

expand_opt_self :
    (expand : ℕ → ℕ → ℕ × ℕ) (n : ℕ)
    → ((x : ℕ) → x < n → expand x x ≡ (x, x))
    → (o : Option ℕ) → InRange n o
    → expand_opt expand o o ≡ (o, o)
expand_opt_self expand n self none h = refl
expand_opt_self expand n self (some x) h = rw (self x h)

-- Expanding a packet's numbers against themselves changes nothing.
expand_ids-first_ids :
    (p : IncomingRtp) (h : VideoHeader)
    → FitsWire p h
    → expand_ids p h (first_ids p h) ≡ (first_ids p h, first_ids p h)
unfolding expand_ids
expand_ids-first_ids p h fit = rw (
  expand_opt_self expand_picture_id _ expand_picture_id_self (picture_id h) fit.picture_id_fits,
  expand_opt_self expand_tl0_pic_idx _ expand_tl0_pic_idx_self (tl0_pic_idx h) fit.tl0_pic_idx_fits,
  expand_opt_self expand_frame_number _ expand_frame_number_self (truncated_frame_number h)
      fit.frame_number_fits,
  expand_timestamp_self p.timestamp fit.timestamp_fits,
)

-- The maximum of a forwarder always has its optional numbers.
pub record Numbers : Type 0 where
  pub seqnum : ℕ
  pub timestamp : ℕ
  pub picture : ℕ
  pub tl0 : ℕ
  pub frame : ℕ

abbrev pub all_ids : Numbers → Vp8RewrittenIds
all_ids n = record {
  seqnum = n.seqnum;
  timestamp = n.timestamp;
  picture_id = some n.picture;
  tl0_pic_idx = some n.tl0;
  frame_number = some n.frame;
}

-- The numbers two, one, one, one and one further.
abbrev pub advance : Numbers → Numbers
advance n = record {
  seqnum = n.seqnum + 2;
  timestamp = n.timestamp + 1;
  picture = n.picture + 1;
  tl0 = n.tl0 + 1;
  frame = n.frame + 1;
}

-- The numbers that a header has room for.
abbrev pub ids_for : VideoHeader → Numbers → Vp8RewrittenIds
ids_for h n = record {
  seqnum = n.seqnum;
  timestamp = n.timestamp;
  picture_id = relabel (picture_id h) n.picture;
  tl0_pic_idx = relabel (tl0_pic_idx h) n.tl0;
  frame_number = relabel (truncated_frame_number h) n.frame;
}

pub record NoWrap (n : Numbers) : Type 0 where
  pub seqnum_fits : n.seqnum < 2 ^ 64
  pub timestamp_fits : n.timestamp < 2 ^ 64
  pub picture_fits : n.picture < 2 ^ 64
  pub tl0_fits : n.tl0 < 2 ^ 64
  pub frame_fits : n.frame < 2 ^ 64

rewrite_first :
    (s : Stream) (p : IncomingRtp) (h : VideoHeader) (n : Numbers)
    → s.first_incoming ≡ first_ids p h
    → s.first_outgoing ≡ all_ids n
    → NoWrap n
    → rewrite_ids s (first_ids p h) ≡ some (ids_for h n)
unfolding ids_checked_sub ids_checked_add
rewrite_first s p h n ei eo fit = ground arith

ids_checked_add-switch_gap :
    (n : Numbers)
    → NoWrap (advance n)
    → ids_checked_add (all_ids n) switch_gap ≡ some (all_ids (advance n))
unfolding ids_checked_add
ids_checked_add-switch_gap n fit = ground arith

ids_max-ids_for : (h : VideoHeader) (n : Numbers) → ids_max (all_ids n) (ids_for h n) ≡ all_ids n
unfolding ids_max
ids_max-ids_for h n = ground arith

-- The stream and the forwarder that a switch leaves.
abbrev begun : IncomingRtp → VideoHeader → Numbers → Stream
begun p h n = record {
  incoming_ssrc = p.ssrc;
  needs_key_frame = false;
  first_incoming = first_ids p h;
  first_outgoing = all_ids (advance n);
  max_incoming = first_ids p h;
}

abbrev switched : SimulcastForwarder → IncomingRtp → VideoHeader → Numbers → SimulcastForwarder
switched f p h n = record f {
  state = forwarding (begun p h n);
  switching = do_not_switch;
  max_outgoing = all_ids (advance n);
}

forward_stream-begun :
    (f : SimulcastForwarder) (p : IncomingRtp) (h : VideoHeader) (n : Numbers)
    → NoWrap (advance n)
    → FitsWire p h
    → is_key_frame h ≡ true
    → forward_stream (switched f p h n) (begun p h n) p h
      ≡ (some (f.outgoing_ssrc, ids_for h (advance n)), switched f p h n)
unfolding forward_stream
forward_stream-begun f p h n fit wire key =
    rw
      (
        expand_ids-first_ids p h wire,
        rewrite_first (begun p h n) p h (advance n) refl refl fit,
        key,
        ids_max-ids_for h (advance n),
        forward_stream,
      )
      (rw (expand_ids-first_ids p h wire))

begin_forwarding-switched :
    (f : SimulcastForwarder) (p : IncomingRtp) (h : VideoHeader) (n : Numbers)
    → f.max_outgoing ≡ all_ids n
    → NoWrap (advance n)
    → f.switching ≡ switch_at_next_key_frame p.ssrc
    → is_key_frame h ≡ true
    → begin_forwarding f p h ≡ some (switched f p h n)
unfolding begin_forwarding
begin_forwarding-switched f p h n e fit sw key =
    rw (e, sw, key, ==_refl p.ssrc, ids_checked_add-switch_gap n fit)

-- A well-formed key frame of the SSRC that a forwarder waits for is sent at once, under the
-- forwarder's own SSRC, with the sequence number two and the other numbers one above the largest
-- sent so far (those numbers that its header carries). The forwarder then forwards that SSRC, waits
-- for no other, wants no key frame, and has these numbers for its maximum. The packet's numbers
-- fit their fields, and the new ones 64 bits.
pub forward_vp8_rtp-key_frame :
    (f : SimulcastForwarder) (p : IncomingRtp) (h : VideoHeader) (n : Numbers)
    → f.max_outgoing ≡ all_ids n
    → NoWrap (advance n)
    → FitsWire p h
    → well_formed h ≡ true
    → f.switching ≡ switch_at_next_key_frame p.ssrc
    → is_key_frame h ≡ true
    → let (sent, f') = forward_vp8_rtp f p h in
      (sent ≡ some (f.outgoing_ssrc, ids_for h (advance n)))
      × (forwarding_ssrc f' ≡ some p.ssrc)
      × (f'.switching ≡ do_not_switch)
      × (needs_key_frame f' ≡ none)
      × (f'.max_outgoing ≡ all_ids (advance n))
unfolding forward_vp8_rtp forward_current needs_key_frame
forward_vp8_rtp-key_frame f p h n e fit wire good sw key =
    rw
      (
        good,
        begin_forwarding-switched f p h n e fit sw key,
        ==_refl p.ssrc,
        forward_stream-begun f p h n fit wire key,
      )
      (refl, refl, refl, refl, refl)

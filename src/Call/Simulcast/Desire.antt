-- ===== src/Call/Simulcast/Desire.antt =====
-- Which SSRC a simulcast forwarder is told to forward, and what it then does.
use signal_calling_service.Prelude.{ℕ, ◌≡◌, ◌≢◌, true, none, some, arith, ==_refl}
use signal_calling_service.Call.Simulcast.{
  SimulcastForwarder, switch_at_next_key_frame, IncomingRtp, VideoHeader, forward_vp8_rtp,
  forward_current, begin_forwarding, set_desired_ssrc, is_key_frame, well_formed, forwarding_ssrc,
  switching_ssrc, needs_key_frame,
}
use signal_calling_service.Call.Simulcast.Switch.{
  Numbers, all_ids, advance, NoWrap, FitsWire, forward_vp8_rtp-key_frame,
}

-- A forwarder that is told to forward nothing asks for no key frame, and no packet makes it send or
-- change state.
pub set_desired_ssrc-none :
    (f : SimulcastForwarder) (p : IncomingRtp) (h : VideoHeader)
    → let f' = set_desired_ssrc f none in
      (needs_key_frame f' ≡ none) × (forward_vp8_rtp f' p h ≡ (none, f'))
unfolding set_desired_ssrc needs_key_frame forward_vp8_rtp forward_current begin_forwarding
set_desired_ssrc-none f p h = ground arith

-- A forwarder that is told to forward an SSRC which it neither forwards nor waits for asks for a
-- key frame of it, and goes on forwarding what it did.
pub set_desired_ssrc-new :
    (f : SimulcastForwarder) (ssrc : ℕ)
    → forwarding_ssrc f ≢ some ssrc
    → switching_ssrc f ≢ some ssrc
    → let f' = set_desired_ssrc f (some ssrc) in
      (needs_key_frame f' ≡ some ssrc) × (f'.state ≡ f.state) × (f'.max_outgoing ≡ f.max_outgoing)
unfolding set_desired_ssrc needs_key_frame
set_desired_ssrc-new f ssrc a b = ground arith

-- A packet of an SSRC that is neither forwarded nor waited for is dropped, and nothing changes.
pub forward_vp8_rtp-stranger :
    (f : SimulcastForwarder) (p : IncomingRtp) (h : VideoHeader)
    → forwarding_ssrc f ≢ some p.ssrc
    → switching_ssrc f ≢ some p.ssrc
    → forward_vp8_rtp f p h ≡ (none, f)
unfolding forward_vp8_rtp forward_current begin_forwarding
forward_vp8_rtp-stranger f p h a b = ground arith

-- Telling a forwarder to forward the SSRC that it forwards already does not call off a switch that
-- it waits for: the next key frame of the awaited SSRC still moves it there. (The packet's numbers
-- fit their fields, and the new ones 64 bits.)
pub set_desired_ssrc-keeps_switch :
    (f : SimulcastForwarder) (current : ℕ) (p : IncomingRtp) (h : VideoHeader) (n : Numbers)
    → forwarding_ssrc f ≡ some current
    → f.switching ≡ switch_at_next_key_frame p.ssrc
    → f.max_outgoing ≡ all_ids n
    → NoWrap (advance n)
    → FitsWire p h
    → well_formed h ≡ true
    → is_key_frame h ≡ true
    → forwarding_ssrc (forward_vp8_rtp (set_desired_ssrc f (some current)) p h).1 ≡ some p.ssrc
unfolding set_desired_ssrc
set_desired_ssrc-keeps_switch f current p h n fw sw e fit wire good key =
    rw (fw, ==_refl current) (forward_vp8_rtp-key_frame f p h n e fit wire good sw key).1

-- ===== src/Call/Owned.antt =====
-- Which SSRC a receiver's video forwarders send under, in backend/src/call.rs: that of the sender's
-- base layer, whatever is forwarded and desired.
pub mod Kept
use mathlib.Core.Option.{some-injective}
use signal_calling_service.Prelude.{
  ℕ, ◌≡◌, refl, ap, sym, ◌∙◌, inl, inr, true, false, not, ◌&&◌, ◌==◌, Bool-cases, Option-cases,
  if-elim, if◌then◌else◌, Option, none, some, opt_eq, unwrap_or, List, [], ◌∷◌, All, arith, subst,
  ap₂, ==_iff,
}
use signal_calling_service.Prelude.Dict.{get, insert, erase, All-insert}
use signal_calling_service.Call.Ids.{ids_checked_add}
use signal_calling_service.Call.Simulcast.{
  SimulcastForwarder, IncomingRtp, VideoHeader, ForwardingState, Stream, Sent, paused, forwarding,
  new_forwarder, set_desired_ssrc, well_formed, begin_forwarding, switching_ssrc, forwarding_ssrc,
  is_key_frame, switch_gap, expand_ids, rewrite_ids, forward_stream, forward_current,
  forward_vp8_rtp,
}
use signal_calling_service.Call.Ssrc.{video0, to_ssrc}
use signal_calling_service.Call.State.{Client}

abbrev pub Owned : Client → Type 0
Owned c = All (λ e. e.1.outgoing_ssrc ≡ to_ssrc video0 e.0) c.video_forwarder_by_sender_demux_id

-- What a forwarder sends leaves under its SSRC, which it keeps.
abbrev pub UnderSent : ℕ → Option Sent → Type 0
UnderSent ssrc none = Unit
UnderSent ssrc (some sent) = sent.0 ≡ ssrc

abbrev pub Under : ℕ → Option Sent × SimulcastForwarder → Type 0
Under ssrc r = (r.1.outgoing_ssrc ≡ ssrc) × UnderSent ssrc r.0

Under-forward_stream :
    (f : SimulcastForwarder) (s : Stream) (p : IncomingRtp) (h : VideoHeader)
    → Under f.outgoing_ssrc (forward_stream f s p h)
unfolding forward_stream
Under-forward_stream f s p h =
    elim (Option-cases (rewrite_ids s (expand_ids p h s.max_incoming).0)) [
      | inl e ↦ rw (e, forward_stream) (refl, tt)
      | inr (ids, e) ↦ rw (e, forward_stream) (refl, refl)
    ]

Under-forward_current :
    (st : ForwardingState) (f : SimulcastForwarder) (p : IncomingRtp) (h : VideoHeader)
    → Under f.outgoing_ssrc (forward_current st f p h)
unfolding forward_current
Under-forward_current paused f p h = (refl, tt)
Under-forward_current (forwarding s) f p h =
    if-elim (Under f.outgoing_ssrc) (s.incoming_ssrc == p.ssrc) (λ _. Under-forward_stream f s p h)
      λ _. (refl, tt)

abbrev Begun : ℕ → Option SimulcastForwarder → Type 0
Begun ssrc none = Unit
Begun ssrc (some f) = f.outgoing_ssrc ≡ ssrc

begin_forwarding-Begun :
    (f : SimulcastForwarder) (p : IncomingRtp) (h : VideoHeader)
    → Begun f.outgoing_ssrc (begin_forwarding f p h)
unfolding begin_forwarding
begin_forwarding-Begun f p h =
    if-elim (Begun f.outgoing_ssrc) (opt_eq (switching_ssrc f) (some p.ssrc) && is_key_frame h)
      (λ _. elim (Option-cases (ids_checked_add f.max_outgoing switch_gap)) [
        | inl e ↦ rw (e, Begun) tt
        | inr (ids, e) ↦ rw (e, Begun) refl
      ])
      λ _. refl

pub Under-forward_vp8_rtp :
    (f : SimulcastForwarder) (p : IncomingRtp) (h : VideoHeader)
    → Under f.outgoing_ssrc (forward_vp8_rtp f p h)
unfolding forward_vp8_rtp
Under-forward_vp8_rtp f p h =
    if-elim (Under f.outgoing_ssrc) (well_formed h)
      (λ _. elim (Option-cases (begin_forwarding f p h)) [
        | inl e ↦ rw e (refl, tt)
        | inr (f', e) ↦
            let same : f'.outgoing_ssrc ≡ f.outgoing_ssrc =
              subst (Begun f.outgoing_ssrc) e (begin_forwarding-Begun f p h) in
            rw e (
              subst (λ n. Under n (forward_current f'.state f' p h)) same
                (Under-forward_current f'.state f' p h))
      ])
      λ _. (refl, tt)

pub outgoing_ssrc-set_desired_ssrc :
    (f : SimulcastForwarder) (d : Option ℕ) → (set_desired_ssrc f d).outgoing_ssrc ≡ f.outgoing_ssrc
unfolding set_desired_ssrc
outgoing_ssrc-set_desired_ssrc f none = refl
outgoing_ssrc-set_desired_ssrc f (some d) = ground arith

-- An entry that is found has what holds of all.
pub All-get {ℓ} :
    {V : Type ℓ} (P : ℕ × V → Type 0) (k : ℕ) (v : V) (m : List (ℕ × V))
    → All P m
    → get k m ≡ some v
    → P (k, v)
All-get P k v [] a e = absurd (ground arith)
All-get P k v ((j, w) ∷ m) a e =
    if-elim (λ o. o ≡ some v → P (k, v)) (j == k)
      (λ t q. subst P (ap₂ (λ i u. (i, u)) ((==_iff j k).0 t) (some-injective w v q)) a.0)
      (λ _ q. All-get P k v m a.1 q) e

pub All-erase {ℓ} :
    {V : Type ℓ} (P : ℕ × V → Type 0) (k : ℕ) (m : List (ℕ × V)) → All P m → All P (erase k m)
All-erase P k [] a = tt
All-erase P k ((j, w) ∷ m) a =
    if-elim (All P) (j == k) (λ _. All-erase P k m a.1) λ _. (a.0, All-erase P k m a.1)

-- ===== src/Call/Simulcast/Order.antt =====
-- The order of the sequence numbers that the simulcast forwarder sends, across switches of layer.
use signal_calling_service.Prelude.{
  ℕ, ◌+◌, ◌≤◌, ◌<◌, ◌≡◌, refl, subst, Option, none, some, List, [], ◌∷◌, arith, All, Option-cases,
  inl, inr, ◌==◌, Bool-cases,
}
use signal_calling_service.Call.Ids.{Vp8RewrittenIds, ids_checked_add, ids_checked_sub, ids_max}
use signal_calling_service.Call.Simulcast.{
  SimulcastForwarder, ForwardingState, paused, forwarding, Stream, IncomingRtp, VideoHeader, Sent,
  forward_vp8_rtp, forward_stream, forward_current, begin_forwarding, expand_ids, rewrite_ids,
  switch_gap, well_formed,
}

-- The invariant: the present stream began at most at the maximum.
abbrev pub Began : ℕ → ForwardingState → Type 0
Began m paused = Unit {0}
Began m (forwarding s) = s.first_outgoing.seqnum ≤ m

abbrev pub Inv : SimulcastForwarder → Type 0
Inv f = Began f.max_outgoing.seqnum f.state

-- A packet that was sent: the number at which its stream began, which tells streams apart, and the
-- sequence numbers under which it arrived and left.
pub record Out : Type 0 where
  pub stream : ℕ
  pub arrived : ℕ
  pub left : ℕ

abbrev pub Fits : Out → ForwardingState → Type 0
Fits q paused = Unit {0}
Fits q (forwarding s) =
    (q.stream ≤ s.first_outgoing.seqnum)
    × (q.stream < s.first_outgoing.seqnum → q.left < s.first_outgoing.seqnum)
    × (q.stream ≡ s.first_outgoing.seqnum
        → q.left + s.first_incoming.seqnum ≡ s.first_outgoing.seqnum + q.arrived)

pub record Past (f : SimulcastForwarder) (q : Out) : Type 0 where
  pub began : q.stream ≤ q.left
  pub below : q.left ≤ f.max_outgoing.seqnum
  pub fits : Fits q f.state

seqnum-add :
    (a b c : Vp8RewrittenIds) → ids_checked_add a b ≡ some c → c.seqnum ≡ a.seqnum + b.seqnum
unfolding ids_checked_add
seqnum-add a b c h = ground arith

seqnum-sub :
    (a b c : Vp8RewrittenIds) → ids_checked_sub a b ≡ some c → c.seqnum + b.seqnum ≡ a.seqnum
unfolding ids_checked_sub
seqnum-sub a b c h = ground arith

seqnum-rewrite :
    (s : Stream) (a c : Vp8RewrittenIds)
    → rewrite_ids s a ≡ some c
    → (c.seqnum + s.first_incoming.seqnum ≡ s.first_outgoing.seqnum + a.seqnum)
      × (s.first_incoming.seqnum ≤ a.seqnum)
seqnum-rewrite s a c h = grind (arith, seqnum-add, seqnum-sub)

abbrev pub stream_of : ForwardingState → ℕ
stream_of paused = 0
stream_of (forwarding s) = s.first_outgoing.seqnum

-- What a call that left state `f` sent, put before the history.
abbrev pub note : IncomingRtp → Option Sent × SimulcastForwarder → List Out → List Out
note p (none, f) h = h
note p (some (ssrc, ids), f) h =
    record { stream = stream_of f.state; arrived = p.seqnum; left = ids.seqnum } ∷ h

-- A later packet of the same stream keeps its distance, and one of a later stream leaves under a
-- larger number.
pub record InOrder (p q : Out) : Type 0 where
  pub streams : q.stream ≤ p.stream
  pub later : q.stream < p.stream → q.left < p.left
  pub same : q.stream ≡ p.stream → p.left + q.arrived ≡ q.left + p.arrived

-- What one call does, for a packet sent before it.
pub record Keeps (f : SimulcastForwarder) (p : IncomingRtp) (r : Option Sent × SimulcastForwarder)
    : Type 0 where
  pub inv : Inv r.1
  pub sent : All (Past r.1) (note p r [])
  pub past : (q : Out) → Past f q → Past r.1 q × All (λ o. InOrder o q) (note p r [])

expand_ids-seqnum :
    (p : IncomingRtp) (h : VideoHeader) (m : Vp8RewrittenIds)
    → (expand_ids p h m).0.seqnum ≡ p.seqnum
unfolding expand_ids
expand_ids-seqnum p h m = refl

forward_stream-Keeps :
    (f : SimulcastForwarder) (s : Stream) (p : IncomingRtp) (h : VideoHeader)
    → f.state ≡ forwarding s
    → Began f.max_outgoing.seqnum (forwarding s)
    → Keeps f p (forward_stream f s p h)
unfolding forward_stream ids_max
forward_stream-Keeps f s p h e v =
    elim (Option-cases (rewrite_ids s (expand_ids p h s.max_incoming).0)) [
      | inl dropped ↦
          rw (dropped, forward_stream)
            (record { inv = v; sent = tt; past = λ q past. (fits q past, tt) })
      | inr (ids, rewritten) ↦
          rw (rewritten, forward_stream)
            (let number = seqnum-rewrite s _ ids rewritten in
              let arrived = expand_ids-seqnum p h s.max_incoming in
              record {
                inv = omega arith;
                sent =
                    (record { began = omega arith; below = omega arith; fits = omega arith }, tt);
                past = λ q past.
                    let old = fits q past in
                    (
                      record { began = omega arith; below = omega arith; fits = old.fits },
                      (
                        record {
                          streams = old.fits.0;
                          later = λ lt. omega (arith, old.fits.1 lt);
                          same = λ eq. omega (arith, old.fits.2 eq);
                        },
                        tt,
                      ),
                    );
              })
    ]
  where
    fits :
        (q : Out)
        → Past f q
        → Past
            (record f {
              state = forwarding (record s { max_incoming = (expand_ids p h s.max_incoming).1 });
            })
            q
    fits q past = record {
      began = past.began;
      below = past.below;
      fits = subst (Fits q) e past.fits;
    }

begin_forwarding-Inv :
    (f : SimulcastForwarder) (p : IncomingRtp) (h : VideoHeader) (g : SimulcastForwarder)
    → begin_forwarding f p h ≡ some g
    → Inv f
    → Inv g
unfolding begin_forwarding
begin_forwarding-Inv f p h g e v = ground arith

begin_forwarding-Past :
    (f : SimulcastForwarder) (p : IncomingRtp) (h : VideoHeader) (g : SimulcastForwarder) (q : Out)
    → begin_forwarding f p h ≡ some g
    → Past f q
    → Past g q
unfolding begin_forwarding
begin_forwarding-Past f p h g q e v =
    ground (arith, seqnum-add f.max_outgoing switch_gap g.max_outgoing)

idle-Keeps : (f : SimulcastForwarder) (p : IncomingRtp) → Inv f → Keeps f p (none, f)
idle-Keeps f p v = record { inv = v; sent = tt; past = λ q past. (past, tt) }

forward_current-Keeps :
    (st : ForwardingState) (f : SimulcastForwarder) (p : IncomingRtp) (h : VideoHeader)
    → f.state ≡ st
    → Inv f
    → Keeps f p (forward_current st f p h)
unfolding forward_current
forward_current-Keeps paused f p h e v = idle-Keeps f p v
forward_current-Keeps (forwarding s) f p h e v = elim (Bool-cases (s.incoming_ssrc == p.ssrc)) [
  | inl hit ↦ rw hit (forward_stream-Keeps f s p h e (subst (Began f.max_outgoing.seqnum) e v))
  | inr miss ↦ rw miss (idle-Keeps f p v)
]

Keeps-trans :
    (f g : SimulcastForwarder) (p : IncomingRtp) (r : Option Sent × SimulcastForwarder)
    → ((q : Out) → Past f q → Past g q)
    → Keeps g p r
    → Keeps f p r
Keeps-trans f g p r carry k = record {
  inv = k.inv;
  sent = k.sent;
  past = λ q past. k.past q (carry q past);
}

pub forward_vp8_rtp-Keeps :
    (f : SimulcastForwarder) (p : IncomingRtp) (h : VideoHeader)
    → Inv f
    → Keeps f p (forward_vp8_rtp f p h)
unfolding forward_vp8_rtp
forward_vp8_rtp-Keeps f p h v = elim (Bool-cases (well_formed h)) [
  | inr bad ↦ rw bad (idle-Keeps f p v)
  | inl good ↦ elim (Option-cases (begin_forwarding f p h)) [
    | inl full ↦ rw (good, full, forward_vp8_rtp) (idle-Keeps f p v)
    | inr (g, began) ↦
        rw (good, began, forward_vp8_rtp)
          (Keeps-trans f g p _ (λ q past. begin_forwarding-Past f p h g q began past)
            (forward_current-Keeps g.state g p h refl (begin_forwarding-Inv f p h g began v)))
  ]
]

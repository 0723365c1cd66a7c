-- ===== src/Call/Single/Order.antt =====
-- The single-stream forwarder keeps the order of packets and reuses no sequence number.
use signal_calling_service.Prelude.{
  ℕ, suc, ◌+◌, ◌*◌, ◌^◌, ◌≤◌, ◌<◌, ◌≡◌, Option, none, some, List, [], ◌∷◌, arith, All, length,
}
use signal_calling_service.Call.Single.{
  SingleSsrcRtpForwarder, default_forwarder, forward_rtp, Forwarded, forward_all, note,
}

-- Two forwarded packets leave in the order in which they arrived, and the same number leaves under
-- the same number.
pub record SameOrder (p q : Forwarded) : Type 0 where
  pub before : p.arrived < q.arrived → p.left < q.left
  pub after : q.arrived < p.arrived → q.left < p.left
  pub same : p.arrived ≡ q.arrived → p.left ≡ q.left

abbrev pub InOrder : List Forwarded → Type 0
InOrder [] = Unit {0}
InOrder (p ∷ h) = All (SameOrder p) h × InOrder h

-- What a forwarder's state says of a packet that it forwarded: since the last reset it was moved by
-- the present offset, and before that it left under a smaller number.
record Past (s : SingleSsrcRtpForwarder) (p : Forwarded) : Type 0 where
  below : p.left ≤ s.max_outgoing
  offset : s.first_incoming ≤ p.arrived → p.left + s.first_incoming ≡ s.first_outgoing + p.arrived
  older : p.arrived < s.first_incoming → p.left < s.first_outgoing

-- A packet raises the maximum by less than half a cycle, so `n` more packets do not wrap it.
record Room (n : ℕ) (s : SingleSsrcRtpForwarder) : Type 0 where
  started : s.first_outgoing ≤ s.max_outgoing
  small : s.max_outgoing + n * 2 ^ 15 ≤ 2 ^ 63

forward_rtp-Room :
    (n : ℕ) (s : SingleSsrcRtpForwarder) (i : ℕ) → Room (suc n) s → Room n (forward_rtp s i).1
unfolding forward_rtp
forward_rtp-Room n s i v = ground arith

-- One packet: it is in order with one forwarded before, and the past stays described.
forward_rtp-Past :
    {n : ℕ} (s : SingleSsrcRtpForwarder) (i : ℕ) (q : Forwarded)
    → Room (suc n) s
    → Past s q
    → All (λ p. SameOrder p q) (note i (forward_rtp s i).0 []) × Past (forward_rtp s i).1 q
unfolding forward_rtp
forward_rtp-Past s i q v p = ground arith

-- The packet itself is described by the state that it leaves.
forward_rtp-note :
    {n : ℕ} (s : SingleSsrcRtpForwarder) (i : ℕ)
    → Room (suc n) s
    → All (Past (forward_rtp s i).1) (note i (forward_rtp s i).0 [])
unfolding forward_rtp
forward_rtp-note s i v = ground arith

All-Past :
    {n : ℕ} (s : SingleSsrcRtpForwarder) (i : ℕ) (h : List Forwarded)
    → Room (suc n) s
    → All (Past s) h
    → All (Past (forward_rtp s i).1) h
All-Past s i [] v p = tt
All-Past s i (q ∷ h) v p = ((forward_rtp-Past s i q v p.0).1, All-Past s i h v p.1)

All-SameOrder :
    {n : ℕ} (s : SingleSsrcRtpForwarder) (i : ℕ) (h : List Forwarded)
    → Room (suc n) s
    → All (Past s) h
    → All (λ p. All (SameOrder p) h) (note i (forward_rtp s i).0 [])
All-SameOrder s i h v p = go (forward_rtp s i).0 h (each h p)
  where
    go :
        (o : Option ℕ) (h : List Forwarded)
        → All (λ q. All (λ p. SameOrder p q) (note i o [])) h
        → All (λ p. All (SameOrder p) h) (note i o [])
    go none h e = tt
    go (some o) [] e = (tt, tt)
    go (some o) (q ∷ h) e = ((e.0.0, (go (some o) h e.1).0), tt)

    each :
        (h : List Forwarded)
        → All (Past s) h
        → All (λ q. All (λ p. SameOrder p q) (note i (forward_rtp s i).0 [])) h
    each [] p = tt
    each (q ∷ h) p = ((forward_rtp-Past s i q v p.0).0, each h p.1)

note-All :
    (P : Forwarded → Type 0) (i : ℕ) (o : Option ℕ) (h : List Forwarded)
    → All P (note i o [])
    → All P h
    → All P (note i o h)
note-All P i none h a b = b
note-All P i (some o) h a b = (a.0, b)

note-InOrder :
    (i : ℕ) (o : Option ℕ) (h : List Forwarded)
    → All (λ p. All (SameOrder p) h) (note i o [])
    → InOrder h
    → InOrder (note i o h)
note-InOrder i none h a b = b
note-InOrder i (some o) h a b = (a.0, b)

forward_all-InOrder_from :
    (s : SingleSsrcRtpForwarder) (h : List Forwarded) (is : List ℕ)
    → Room (length is) s
    → All (Past s) h
    → InOrder h
    → InOrder (forward_all s h is).0
unfolding forward_all
forward_all-InOrder_from s h [] v p o = o
forward_all-InOrder_from s h (i ∷ is) v p o =
    forward_all-InOrder_from (forward_rtp s i).1 (note i (forward_rtp s i).0 h) is
      (forward_rtp-Room (length is) s i v)
      (note-All _ i _ h (forward_rtp-note s i v) (All-Past s i h v p))
      (note-InOrder i _ h (All-SameOrder s i h v p) o)

-- Whatever numbers arrive at a new forwarder, in any order, with repeats and gaps of any size, up
-- to 2^48 packets: of any two packets that it forwards, the one with the smaller incoming number
-- leaves under the smaller outgoing number, and equal incoming numbers leave under equal ones. So
-- no outgoing number is used for two incoming ones.
pub forward_all-InOrder :
    (is : List ℕ) → length is ≤ 2 ^ 48 → InOrder (forward_all default_forwarder [] is).0
forward_all-InOrder is h = forward_all-InOrder_from default_forwarder [] is (omega arith) tt tt

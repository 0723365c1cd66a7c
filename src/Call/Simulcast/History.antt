-- ===== src/Call/Simulcast/History.antt =====
-- Whole histories of a simulcast forwarder: packets, layer decisions and key frame requests in any
-- order.
use signal_calling_service.Prelude.{ℕ, ◌≡◌, Option, none, some, List, [], ◌∷◌, All, arith}
use signal_calling_service.Call.Simulcast.{
  SimulcastForwarder, ForwardingState, paused, forwarding, IncomingRtp, VideoHeader, Sent,
  forward_vp8_rtp, set_desired_ssrc, set_needs_key_frame, new_forwarder, mark,
}
use signal_calling_service.Call.Simulcast.Order.{
  Inv, Began, Fits, Past, Out, note, InOrder, Keeps, forward_vp8_rtp-Keeps, stream_of,
}

pub data Event : Type 0 where
  packet : IncomingRtp → VideoHeader → Event
  desire : Option ℕ → Event
  key_frame_request : Event

unfoldable pub run : SimulcastForwarder → List Out → List Event → List Out × SimulcastForwarder
run f past [] = (past, f)
run f past (packet p h ∷ es) = let r = forward_vp8_rtp f p h in run r.1 (note p r past) es
run f past (desire ssrc ∷ es) = run (set_desired_ssrc f ssrc) past es
run f past (key_frame_request ∷ es) = run (set_needs_key_frame f) past es

abbrev pub AllInOrder : List Out → Type 0
AllInOrder [] = Unit {0}
AllInOrder (o ∷ past) = All (InOrder o) past × AllInOrder past

-- A decision moves the forwarder from `f` to `g` and sends nothing.
record Quiet (f g : SimulcastForwarder) : Type 0 where
  inv : Inv f → Inv g
  past : (q : Out) → Past f q → Past g q

All-carry :
    (f g : SimulcastForwarder) (past : List Out)
    → ((q : Out) → Past f q → Past g q)
    → All (Past f) past
    → All (Past g) past
All-carry f g [] carry a = tt
All-carry f g (q ∷ past) carry a = (carry q a.0, All-carry f g past carry a.1)

same_state-Quiet :
    (f g : SimulcastForwarder) → f.state ≡ g.state → f.max_outgoing ≡ g.max_outgoing → Quiet f g
same_state-Quiet f g e m = record {
  inv = λ v. rw (← e, ← m) v;
  past = λ q p. record { began = p.began; below = rw (← m) p.below; fits = rw (← e) p.fits };
}

set_desired_ssrc-Quiet :
    (f : SimulcastForwarder) (ssrc : Option ℕ) → Quiet f (set_desired_ssrc f ssrc)
unfolding set_desired_ssrc
set_desired_ssrc-Quiet f none = record {
  inv = λ v. tt;
  past = λ q p. record { began = p.began; below = p.below; fits = tt };
}
set_desired_ssrc-Quiet f (some ssrc) = same_state-Quiet f _ (ground arith) (ground arith)

mark-Began : (m : ℕ) (st : ForwardingState) → Began m st → Began m (mark st)
mark-Began m paused b = b
mark-Began m (forwarding s) b = b

mark-Fits : (q : Out) (st : ForwardingState) → Fits q st → Fits q (mark st)
mark-Fits q paused b = b
mark-Fits q (forwarding s) b = b

set_needs_key_frame-Quiet : (f : SimulcastForwarder) → Quiet f (set_needs_key_frame f)
unfolding set_needs_key_frame
set_needs_key_frame-Quiet f = record {
  inv = λ v. mark-Began f.max_outgoing.seqnum f.state v;
  past = λ q p. record { began = p.began; below = p.below; fits = mark-Fits q f.state p.fits };
}

note-All :
    (P : Out → Type 0) (p : IncomingRtp) (r : Option Sent × SimulcastForwarder) (past : List Out)
    → All P (note p r [])
    → All P past
    → All P (note p r past)
note-All P p (none, f) past a b = b
note-All P p (some (ssrc, ids), f) past a b = (a.0, b)

-- Every entry of the history against the new one, turned round.
against :
    (p : IncomingRtp) (r : Option Sent × SimulcastForwarder) (past : List Out)
    → All (λ q. All (λ o. InOrder o q) (note p r [])) past
    → AllInOrder past
    → AllInOrder (note p r past)
against p (none, f) past a b = b
against p (some (ssrc, ids), f) past a b = (heads past a, b)
  where
    heads :
        (past : List Out)
        → All (λ q. All (λ o. InOrder o q) (note p (some (ssrc, ids), f) [])) past
        → All
            (InOrder (record { stream = stream_of f.state; arrived = p.seqnum; left = ids.seqnum }))
            past
    heads [] a = tt
    heads (q ∷ past) a = (a.0.0, heads past a.1)

Keeps-Past :
    (f : SimulcastForwarder) (p : IncomingRtp) (r : Option Sent × SimulcastForwarder)
    (past : List Out)
    → Keeps f p r
    → All (Past f) past
    → All (Past r.1) past × All (λ q. All (λ o. InOrder o q) (note p r [])) past
Keeps-Past f p r [] k a = (tt, tt)
Keeps-Past f p r (q ∷ past) k a =
    let rest = Keeps-Past f p r past k a.1 in
    let here = k.past q a.0 in ((here.0, rest.0), (here.1, rest.1))

run-AllInOrder_from :
    (f : SimulcastForwarder) (past : List Out) (es : List Event)
    → Inv f
    → All (Past f) past
    → AllInOrder past
    → AllInOrder (run f past es).0
unfolding run
run-AllInOrder_from f past [] v a o = o
run-AllInOrder_from f past (packet p h ∷ es) v a o =
    let k = forward_vp8_rtp-Keeps f p h v in
    let both = Keeps-Past f p (forward_vp8_rtp f p h) past k a in
    run-AllInOrder_from (forward_vp8_rtp f p h).1 (note p (forward_vp8_rtp f p h) past) es k.inv
      (note-All _ p _ past k.sent both.0) (against p _ past both.1 o)
run-AllInOrder_from f past (desire ssrc ∷ es) v a o =
    let quiet = set_desired_ssrc-Quiet f ssrc in
    run-AllInOrder_from (set_desired_ssrc f ssrc) past es (quiet.inv v)
      (All-carry f _ past quiet.past a) o
run-AllInOrder_from f past (key_frame_request ∷ es) v a o =
    let quiet = set_needs_key_frame-Quiet f in
    run-AllInOrder_from (set_needs_key_frame f) past es (quiet.inv v)
      (All-carry f _ past quiet.past a) o

-- Whatever packets, layer decisions and key frame requests reach a new forwarder, of any two packets
-- that it sends the later sent belongs to the same or a later stream (streams are the stretches
-- between switches, told apart by the number at which they begin); packets of a later stream leave
-- under larger sequence numbers, and those of one stream keep the distance between their incoming
-- numbers.
pub run-AllInOrder :
    (outgoing_ssrc : ℕ) (es : List Event) → AllInOrder (run (new_forwarder outgoing_ssrc) [] es).0
unfolding new_forwarder
run-AllInOrder outgoing_ssrc es = run-AllInOrder_from (new_forwarder outgoing_ssrc) [] es tt tt tt

-- ===== src/Rtp/Nack/Missing.antt =====
-- What a `NackSender` asks for is missing.
use signal_calling_service.Prelude.{
  ℕ, ◌^◌, ◌<◌, Bool, true, false, none, some, List, [], ◌∷◌, if◌then◌else◌, All, refl, arith,
  unwrap_or,
}
use signal_calling_service.Collections.KeySorted.{IsValid}
use signal_calling_service.Rtp.Nack.{NackSender, new_nack_sender, remember_received, send_nacks}
use signal_calling_service.Rtp.Nack.Invariant.{
  IsMissing, Inv, retain_nacks-All, sent_at-All, remember_received-Inv, send_nacks-Inv,
}

pub data Event : Type 0 where
  received : ℕ → Event
  nacks : ℕ → ℕ → Event

unfoldable pub step : NackSender → Event → NackSender
step s (received seqnum) = remember_received seqnum s
step s (nacks now rtt) = (send_nacks now rtt s).1

unfoldable pub run : NackSender → List Event → NackSender
run s [] = s
run s (e ∷ es) = run (step s e) es

-- The numbers received before and in a history.
abbrev pub all_received : List ℕ → List Event → List ℕ
all_received ns [] = ns
all_received ns (received n ∷ es) = all_received (n ∷ ns) es
all_received ns (nacks now rtt ∷ es) = all_received ns es

-- The numbers in a history are 64 bits wide.
abbrev pub Fits : List Event → Type 0
Fits [] = Unit
Fits (received n ∷ es) = (n < 2 ^ 64) × Fits es
Fits (nacks now rtt ∷ es) = Fits es

run-Inv :
    (ns : List ℕ) (s : NackSender) (es : List Event)
    → Fits es
    → Inv ns s
    → Inv (all_received ns es) (run s es)
unfolding run step
run-Inv ns s [] fits h = h
run-Inv ns s (received n ∷ es) fits h =
    run-Inv (n ∷ ns) (remember_received n s) es fits.1 (remember_received-Inv ns n s fits.0 h)
run-Inv ns s (nacks now rtt ∷ es) fits h =
    run-Inv ns (send_nacks now rtt s).1 es fits (send_nacks-Inv ns now rtt s h)

new_nack_sender-Inv : (limit : ℕ) → Inv [] (new_nack_sender limit)
new_nack_sender-Inv limit = (refl, (tt, (tt, omega arith)))

if_any :
    (P : ℕ → Type 0) (b : Bool) (ns : List ℕ)
    → All P ns
    → All P (unwrap_or (if b then some ns else none) [])
if_any P true ns h = h
if_any P false ns h = tt

-- After any history of received packets and of requests, a NACK asks only for numbers that are below
-- the highest one received and were never received themselves. Numbers are below 2^64.
pub send_nacks-IsMissing :
    (limit now rtt : ℕ) (es : List Event)
    → Fits es
    → let s = run (new_nack_sender limit) es in
      All (IsMissing (all_received [] es) s.max_received) (unwrap_or (send_nacks now rtt s).0 [])
unfolding send_nacks
send_nacks-IsMissing limit now rtt es fits =
    let inv = run-Inv [] (new_nack_sender limit) es fits (new_nack_sender-Inv limit) in
    if_any (IsMissing _ _) _ _
      (sent_at-All (IsMissing _ _) now _ (retain_nacks-All (IsMissing _ _) now rtt _ inv.1.0))

-- After any history the memory for NACKs is in ascending order and within its limit.
pub run-IsValid :
    (limit : ℕ) (es : List Event)
    → Fits es
    → IsValid (run (new_nack_sender limit) es).sent_by_seqnum
run-IsValid limit es fits =
    (run-Inv [] (new_nack_sender limit) es fits (new_nack_sender-Inv limit)).1.1

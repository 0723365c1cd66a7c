-- ===== src/Call/Tick/Announced.antt =====
-- When clients come or go in a call of backend/src/call.rs, the next tick says so.
use signal_calling_service.Prelude.{ℕ, ◌<◌, ◌≤◌, ◌≡◌, ◌∙◌, inl, inr, List, [], ◌∷◌, All, arith}
use signal_calling_service.Call.State.{Call, identities}
use signal_calling_service.Call.Members.Run.{Request, step, run}
use signal_calling_service.Call.Members.Noted.{present, Noted, Noted-step}
use signal_calling_service.Call.Tick.{tick}
use signal_calling_service.Call.Tick.Told.{Told, tick-Told}

-- Something was noted at `since` or later, and the clients were told last at `told`.
abbrev Pending : ℕ → ℕ → Call → Type 0
Pending since told call = (call.clients_update_sent ≡ told) × (since ≤ call.client_added_or_removed)

Pending-Noted :
    (since told now : ℕ) (before after : Call)
    → since ≤ now
    → Noted now before after
    → Pending since told before
    → Pending since told after
Pending-Noted since told now before after le (kept, inl at) (t, s) = (kept ∙ t, omega arith)
Pending-Noted since told now before after le (kept, inr (same, _)) (t, s) = (kept ∙ t, omega arith)

Pending-run :
    (scale : ℕ → ℕ) (since told : ℕ) (rs : List (ℕ × Request)) (call : Call)
    → All (λ r. since ≤ r.0) rs
    → Pending since told call
    → Pending since told (run scale call rs)
unfolding run
Pending-run scale since told [] call le p = p
Pending-run scale since told (r ∷ rs) call le p =
    Pending-run scale since told rs (step scale call r) le.1
      (Pending-Noted since told r.0 call (step scale call r) le.0 (Noted-step scale call r) p)

-- When a request changes who takes part or who waits, later than the clients were told last, then a
-- tick after it tells every participant and every client that waits, whatever requests come between,
-- as long as none of these is earlier.
pub tick-Told-run :
    (per smooth : ℕ → ℕ → ℕ) (scale : ℕ → ℕ) (now at : ℕ) (r : Request) (rs : List (ℕ × Request))
    (call : Call)
    → call.clients_update_sent < at
    → ¬ (present (step scale call (at, r)) ≡ present call)
    → All (λ q. at ≤ q.0) rs
    → let after = run scale call ((at, r) ∷ rs) in
      let sent = (tick per smooth scale now after).updates in
      Told sent (identities after.clients) × Told sent after.pending_clients
unfolding run
tick-Told-run per smooth scale now at r rs call fresh changed order =
    let next = step scale call (at, r) in
    let noted : Noted at call next = Noted-step scale call (at, r) in
    let first : Pending at call.clients_update_sent next = elim noted.1 [
      | inl t ↦ (noted.0, omega arith)
      | inr (_, same) ↦ absurd (changed same)
    ] in
    let after = run scale next rs in
    let pending = Pending-run scale at call.clients_update_sent rs next order first in
    let told : after.clients_update_sent ≡ call.clients_update_sent = pending.0 in
    let late : at ≤ after.client_added_or_removed = pending.1 in
    tick-Told per smooth scale now after (ground arith)

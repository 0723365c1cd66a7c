-- ===== src/Call/SendRate/Lowest.antt =====
-- How long a low target send rate is remembered, of backend/src/call.rs.
use signal_calling_service.Prelude.{
  ℕ, ◌+◌, ◌≤◌, ◌⊎◌, inl, inr, ◌≡◌, refl, ap, subst, sym, ◌∙◌, ◌==◌, if◌then◌else◌, ltb, if-elim,
  Bool-cases, some, unwrap_or, true, false, List, [], ◌∷◌, arith,
}
use signal_calling_service.Call.Intervals.{min_target_send_rate_generation_interval}
use signal_calling_service.Call.State.{Client, Call, min_target_send_rate}
use signal_calling_service.Call.Layers.{find_client, update_client}
use signal_calling_service.Call.SendRate.{note_target_send_rate, set_target_send_rate, change_found}

-- Rates that are set, with the times.
unfoldable pub note_all : List (ℕ × ℕ) → Client → Client
note_all [] c = c
note_all ((rate, now) ∷ rs) c = note_all rs (note_target_send_rate rate now c)

-- The times are from `a` to `b`.
unfoldable pub Within : ℕ → ℕ → List (ℕ × ℕ) → Type 0
Within a b [] = Unit
Within a b ((rate, now) ∷ rs) = (a ≤ now) × (now ≤ b) × Within a b rs

-- The minimum of one generation or the other is low enough, and it stays for long enough.
abbrev Covers : ℕ → ℕ → Client → Type 0
Covers rate since c =
    ((c.current_generation_min_target_send_rate ≤ rate)
      × (since ≤ c.next_min_target_generation_update_time))
    ⊎ ((c.old_generation_min_target_send_rate ≤ rate)
        × (since + min_target_send_rate_generation_interval
            ≤ c.next_min_target_generation_update_time))

note_target_send_rate-Covers :
    (rate now : ℕ) (c : Client) → Covers rate now (note_target_send_rate rate now c)
unfolding note_target_send_rate
note_target_send_rate-Covers rate now c =
    if-elim (λ (o : Client). Covers rate now o) (ltb c.next_min_target_generation_update_time now)
      (λ over. inl (ground arith, ground arith)) λ during. inl (ground arith, ground arith)

note_target_send_rate-keeps :
    (rate since other now : ℕ) (c : Client)
    → since ≤ now
    → now ≤ since + min_target_send_rate_generation_interval
    → Covers rate since c
    → Covers rate since (note_target_send_rate other now c)
unfolding note_target_send_rate
note_target_send_rate-keeps rate since other now c from to (inl (low, recent)) =
    if-elim (λ (o : Client). Covers rate since o) (ltb c.next_min_target_generation_update_time now)
      (λ over. inr (low, ground arith)) λ during. inl (ground arith, recent)
note_target_send_rate-keeps rate since other now c from to (inr (low, late)) =
    if-elim (λ (o : Client). Covers rate since o) (ltb c.next_min_target_generation_update_time now)
      (λ over. absurd (ground arith)) λ during. inr (low, late)

min_target_send_rate-Covers :
    (rate since : ℕ) (c : Client) → Covers rate since c → min_target_send_rate c ≤ rate
min_target_send_rate-Covers rate since c (inl (low, _)) = ground arith
min_target_send_rate-Covers rate since c (inr (low, _)) = ground arith

note_all-Covers :
    (rate since : ℕ) (rs : List (ℕ × ℕ)) (c : Client)
    → Within since (since + min_target_send_rate_generation_interval) rs
    → Covers rate since c
    → Covers rate since (note_all rs c)
unfolding note_all Within
note_all-Covers rate since [] c w k = k
note_all-Covers rate since ((other, now) ∷ rs) c w k =
    note_all-Covers rate since rs (note_target_send_rate other now c) w.2
      (note_target_send_rate-keeps rate since other now c w.0 w.1 k)

note_target_send_rate-demux_id :
    (rate now : ℕ) (c : Client) → (note_target_send_rate rate now c).demux_id ≡ c.demux_id
unfolding note_target_send_rate
note_target_send_rate-demux_id rate now c =
    if-elim (λ (o : Client). o.demux_id ≡ c.demux_id)
      (ltb c.next_min_target_generation_update_time now) (λ _. refl) λ _. refl

find_client-update_client :
    (id : ℕ) (g : Client → Client) (cs : List Client) (c : Client)
    → ((x : Client) → (g x).demux_id ≡ x.demux_id)
    → find_client id cs ≡ some c
    → find_client id (update_client id g cs) ≡ some (g c)
unfolding update_client
find_client-update_client id g [] c keeps found = absurd (ground arith)
find_client-update_client id g (x ∷ xs) c keeps found = elim (Bool-cases (x.demux_id == id)) [
  | inl same ↦
      rw (same, if◌then◌else◌)
        (subst (λ b. elim b [ true ↦ some (g x) | false ↦ find_client id xs ] ≡ some (g c))
          (sym (ap (λ k. k == id) (keeps x) ∙ same))
          (ap (λ o. some (g (unwrap_or o c)))
            (subst (λ b. elim b [ true ↦ some x | false ↦ find_client id xs ] ≡ some c) same
              found)))
  | inr other ↦
      rw (other, if◌then◌else◌)
        (subst
          (λ b.
            elim b [ true ↦ some x | false ↦ find_client id (update_client id g xs) ] ≡ some (g c))
          (sym other)
          (find_client-update_client id g xs c keeps (
            subst (λ b. elim b [ true ↦ some x | false ↦ find_client id xs ] ≡ some c) other
              found)))
]

-- The rates are set for one receiver.
unfoldable pub set_all : ℕ → List (ℕ × ℕ) → Call → Call
set_all id [] call = call
set_all id ((rate, now) ∷ rs) call = set_all id rs (set_target_send_rate id rate now call).1

set_target_send_rate-found :
    (id rate now : ℕ) (call : Call) (c : Client)
    → find_client id call.clients ≡ some c
    → find_client id (set_target_send_rate id rate now call).1.clients
      ≡ some (note_target_send_rate rate now c)
unfolding set_target_send_rate
set_target_send_rate-found id rate now call c found =
    subst
      (λ o.
        find_client id (change_found (note_target_send_rate rate now) id call o).1.clients
        ≡ some (note_target_send_rate rate now c))
      (sym found)
      (find_client-update_client id (note_target_send_rate rate now) call.clients c
        (note_target_send_rate-demux_id rate now) found)

set_all-found :
    (id : ℕ) (rs : List (ℕ × ℕ)) (call : Call) (c : Client)
    → find_client id call.clients ≡ some c
    → find_client id (set_all id rs call).clients ≡ some (note_all rs c)
unfolding set_all note_all
set_all-found id [] call c found = found
set_all-found id ((rate, now) ∷ rs) call c found =
    set_all-found id rs (set_target_send_rate id rate now call).1 (note_target_send_rate rate now c)
      (set_target_send_rate-found id rate now call c found)

-- For 2.5 seconds after the target send rate of a participant was set, it is still found in the call
-- and the minimum that layers are allocated by is not above this rate, whatever rates are set for it
-- at whatever times of these.
pub min_target_send_rate-set_all :
    (id rate since : ℕ) (rs : List (ℕ × ℕ)) (call : Call) (c : Client)
    → find_client id call.clients ≡ some c
    → Within since (since + min_target_send_rate_generation_interval) rs
    → (c' : Client) × (find_client id (set_all id ((rate, since) ∷ rs) call).clients ≡ some c')
      × (min_target_send_rate c' ≤ rate)
unfolding note_all
min_target_send_rate-set_all id rate since rs call c found w =
    let noted = note_target_send_rate rate since c in
    (
      note_all ((rate, since) ∷ rs) c,
      set_all-found id ((rate, since) ∷ rs) call c found,
      min_target_send_rate-Covers rate since (note_all ((rate, since) ∷ rs) c)
          (note_all-Covers rate since rs noted w (note_target_send_rate-Covers rate since c)),
    )

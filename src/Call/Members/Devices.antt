-- ===== src/Call/Members/Devices.antt =====
-- No client of a call gets lost.
use signal_calling_service.Prelude.{
  ℕ, ◌+◌, Bool, Option, none, some, List, [], ◌∷◌, ◌≡◌, refl, ap, ◌∙◌, arith, inl, inr, Bool-cases,
  Option-cases, unwrap_or, All, count, count-append, count-keep, find, if◌then◌else◌,
}
use signal_calling_service.Call.State.{NonParticipantClient, Call}
use signal_calling_service.Call.Members.{
  swap_remove, init_last, fill_gap, has_demux, has_user, drained,
}
use signal_calling_service.Call.Members.View.{View, view}
use signal_calling_service.Call.Members.Spec.{
  newcomer, add, approve_user, deny_user, block_user, expel, if_found,
}
use signal_calling_service.Call.Members.Run.{
  Request, join, approves, denies, leave, removes, blocks, view_step, view_run, run, view-run,
}

some_same :
    (d c : NonParticipantClient) → ◌≡◌ {A = Option NonParticipantClient} (some d) (some c) → d ≡ c
some_same d c e = ap (λ o. unwrap_or o c) e

-- Requests other than departures.
abbrev pub Stays : ℕ × Request → Type 0
Stays (now, join id u admin r) = Unit
Stays (now, approves id) = Unit
Stays (now, denies id) = Unit
Stays (now, leave id) = ⊥
Stays (now, removes id) = Unit
Stays (now, blocks id) = Unit

module _ (p : NonParticipantClient → Bool) where
  -- How many clients of a call, in whatever state, pass a test.
  abbrev pub known : View → ℕ
  known v = count p v.members + (count p v.pending + count p v.removed)

  count-init_last :
      (c : NonParticipantClient) (cs : List NonParticipantClient)
      → count p (init_last c cs).0 + count p ((init_last c cs).1 ∷ []) ≡ count p (c ∷ cs)
  count-init_last c [] = omega arith
  count-init_last c (d ∷ cs) = omega (arith, count-init_last d cs)

  count-fill_gap : (cs : List NonParticipantClient) → count p (fill_gap cs) ≡ count p cs
  count-fill_gap [] = refl
  count-fill_gap (c ∷ cs) = omega (arith, count-init_last c cs)

  -- What is found is what is removed.
  count-swap_remove :
      (q : NonParticipantClient → Bool) (c : NonParticipantClient) (cs : List NonParticipantClient)
      → find q cs ≡ some c
      → count p (swap_remove q cs) + count p (c ∷ []) ≡ count p cs
  count-swap_remove q c [] h = ground arith
  count-swap_remove q c (d ∷ cs) h = elim (Bool-cases (q d)) [
    | inl hit ↦ rw hit (
        omega (
          arith,
          count-fill_gap cs,
          ap (λ x. count p (x ∷ [])) (some_same d c (rw (hit, find) at h)),
        ))
    | inr miss ↦ rw miss (omega (arith, count-swap_remove q c cs (rw (miss, find) at h)))
  ]

  approve_user-known : (u : ℕ) (v : View) → known (approve_user u v) ≡ known v
  unfolding approve_user
  approve_user-known u v = omega (
    arith,
    count-append p v.members (drained (has_user u) v.pending),
    count-keep p (has_user u) v.pending,
  )

  deny_user-known : (u : ℕ) (v : View) → known (deny_user u v) ≡ known v
  unfolding deny_user
  deny_user-known u v = omega (
    arith,
    count-append p v.removed (drained (has_user u) v.pending),
    count-keep p (has_user u) v.pending,
  )

  block_user-known : (u : ℕ) (v : View) → known (block_user u v) ≡ known v
  unfolding block_user
  block_user-known u v = omega (
    arith,
    count-append p v.removed (drained (has_user u) v.members),
    count-keep p (has_user u) v.members,
  )

  expel-known :
      (id : ℕ) (c : NonParticipantClient) (v : View)
      → find (has_demux id) v.members ≡ some c
      → known (expel id c v) ≡ known v
  unfolding expel
  expel-known id c v found =
      omega (
        arith,
        count-append p v.removed (c ∷ []),
        count-swap_remove (has_demux id) c v.members found,
      )

  add-known : (c : NonParticipantClient) (v : View) → known (add c v).1 ≡ known v + count p (c ∷ [])
  unfolding add
  add-known c v = ground (
    arith,
    count-append p v.members (c ∷ []),
    count-append p v.pending (c ∷ []),
    count-append p v.removed (c ∷ []),
  )

  -- How many of the clients that try to join in a history pass the test.
  abbrev pub arrived : List (ℕ × Request) → ℕ
  arrived [] = 0
  arrived ((now, join id u admin r) ∷ rs) =
      (if p (newcomer id u admin r) then 1 else 0) + arrived rs
  arrived ((now, approves id) ∷ rs) = arrived rs
  arrived ((now, denies id) ∷ rs) = arrived rs
  arrived ((now, leave id) ∷ rs) = arrived rs
  arrived ((now, removes id) ∷ rs) = arrived rs
  arrived ((now, blocks id) ∷ rs) = arrived rs

  user-known :
      (o : Option ℕ) (op : ℕ → View → View) (v : View)
      → ((u : ℕ) → known (op u v) ≡ known v)
      → known (if_found o op v) ≡ known v
  user-known none op v same = refl
  user-known (some u) op v same = same u

  removes-known :
      (id : ℕ) (v : View) → known (if_found (find (has_demux id) v.members) (expel id) v) ≡ known v
  removes-known id v = elim (Option-cases (find (has_demux id) v.members)) [
    | inl missing ↦ rw missing
    | inr (c, found) ↦ rw found (expel-known id c v found)
  ]

  view_run-known :
      (v : View) (rs : List (ℕ × Request))
      → All Stays rs
      → known (view_run v rs) ≡ known v + arrived rs
  unfolding view_run view_step
  view_run-known v [] stay = omega arith
  view_run-known v ((now, join id u admin r) ∷ rs) stay = omega (
    arith,
    view_run-known (add (newcomer id u admin r) v).1 rs stay.1,
    add-known (newcomer id u admin r) v,
  )
  view_run-known v ((now, approves id) ∷ rs) stay =
      view_run-known (view_step v (approves id)) rs stay.1
      ∙ ap (λ n. n + arrived rs) (user-known _ approve_user v (λ u. approve_user-known u v))
  view_run-known v ((now, denies id) ∷ rs) stay =
      view_run-known (view_step v (denies id)) rs stay.1
      ∙ ap (λ n. n + arrived rs) (user-known _ deny_user v (λ u. deny_user-known u v))
  view_run-known v ((now, leave id) ∷ rs) stay = elim stay.0 [ ]
  view_run-known v ((now, removes id) ∷ rs) stay =
      view_run-known (view_step v (removes id)) rs stay.1
      ∙ ap (λ n. n + arrived rs) (removes-known id v)
  view_run-known v ((now, blocks id) ∷ rs) stay =
      view_run-known (view_step v (blocks id)) rs stay.1
      ∙ ap (λ n. n + arrived rs) (user-known _ block_user v (λ u. block_user-known u v))

  -- No client gets lost or counted twice: as long as nobody leaves, the participants and the pending
  -- and removed clients that pass a test are as many as before a history and as try to join in it.
  pub run-known :
      (scale : ℕ → ℕ) (call : Call) (rs : List (ℕ × Request))
      → All Stays rs
      → known (view (run scale call rs)) ≡ known (view call) + arrived rs
  run-known scale call rs stay =
      ap known (view-run scale call rs) ∙ view_run-known (view call) rs stay

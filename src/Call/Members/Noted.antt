-- ===== src/Call/Members/Noted.antt =====
-- Whoever comes or goes is noted: `will_add_or_remove_client` and its callers in
-- backend/src/call.rs.
use mathlib.Core.Option.{some-injective}
use signal_calling_service.Prelude.{
  ℕ, Bool, true, ◌≡◌, refl, sym, ap, subst, ◌∙◌, ◌⊎◌, inl, inr, ◌==◌, ==_refl, if-elim, Bool-cases,
  Option-cases, Option, none, some, List, [], ◌∷◌, any, keep, find, not, ◌++◌, ◌||◌, if◌then◌else◌,
  arith,
}
use signal_calling_service.Call.State.{
  RegionRelation, NonParticipantClient, Client, Call, contains, identities, ClientStatus, revoke,
}
use signal_calling_service.Call.Layers.{
  find_client, allocate_video_layers, reallocate_each, reallocate_target_send_rates,
  update_padding_ssrcs,
}
use signal_calling_service.Call.Members.{
  will_add_or_remove_client, lower_raised_hand, hand_is_up, has_user, has_demux, drained, remaining,
  promote_client, promote_all, add_client, approve_pending_client, deny_pending_client,
  update_for_removed_clients, remove_client, drop_other, drop_client, force_remove_client,
  block_client,
}
use signal_calling_service.Call.Members.Run.{
  Request, join, approves, denies, leave, removes, blocks, step,
}

-- When a client came or went last, and when the clients were told last.
abbrev pub clocks : Call → ℕ × ℕ
clocks call = (call.client_added_or_removed, call.clients_update_sent)

-- Whoever takes part and waits.
abbrev pub present : Call → List NonParticipantClient × List NonParticipantClient
present call = (identities call.clients, call.pending_clients)

-- The time is noted, unless nobody came or went; the clients are told later.
abbrev pub Noted : ℕ → Call → Call → Type 0
Noted now before after =
    (after.clients_update_sent ≡ before.clients_update_sent)
    × ((after.client_added_or_removed ≡ now)
        ⊎ ((after.client_added_or_removed ≡ before.client_added_or_removed)
            × (present after ≡ present before)))

clocks-lower_raised_hand :
    (id now : ℕ) (call : Call) → clocks (lower_raised_hand id now call) ≡ clocks call
unfolding lower_raised_hand
clocks-lower_raised_hand id now call = elim (Option-cases call.raised_hands) [
  | inl e ↦ rw (e, lower_raised_hand) refl
  | inr (hands, e) ↦
      rw (e, lower_raised_hand)
        (if-elim (λ (c : Call). clocks c ≡ clocks call)
          (hand_is_up (find (λ h. h.demux_id == id) hands)) (λ _. refl) λ _. refl)
]

present-lower_raised_hand :
    (id now : ℕ) (call : Call) → present (lower_raised_hand id now call) ≡ present call
unfolding lower_raised_hand
present-lower_raised_hand id now call = elim (Option-cases call.raised_hands) [
  | inl e ↦ rw (e, lower_raised_hand) refl
  | inr (hands, e) ↦
      rw (e, lower_raised_hand)
        (if-elim (λ (c : Call). present c ≡ present call)
          (hand_is_up (find (λ h. h.demux_id == id) hands)) (λ _. refl) λ _. refl)
]

Noted-lower_raised_hand :
    (id now : ℕ) (before after : Call)
    → Noted now before after
    → Noted now before (lower_raised_hand id now after)
Noted-lower_raised_hand id now before after (told, came) =
    let same = clocks-lower_raised_hand id now after in
    (
      ap (λ c. c.1) same ∙ told,
      elim came [
        | inl at ↦ inl (ap (λ c. c.0) same ∙ at)
        | inr (kept, there) ↦
            inr (ap (λ c. c.0) same ∙ kept, present-lower_raised_hand id now after ∙ there)
      ],
    )

-- A user that is found has an entry of its own.
found-drained :
    (id : ℕ) (cs : List NonParticipantClient) (c : NonParticipantClient)
    → find (has_demux id) cs ≡ some c
    → (x : NonParticipantClient) × (xs : List NonParticipantClient) × (drained
          (has_user c.user_id)
          cs
        ≡ x ∷ xs)
found-drained id [] c e = absurd (ground arith)
found-drained id (d ∷ cs) c e = elim (Bool-cases (has_user c.user_id d)) [
  | inl own ↦ (d, keep (has_user c.user_id) cs, rw (own, keep) refl)
  | inr other ↦ elim (Bool-cases (has_demux id d)) [
    | inl t ↦
        let same : some d ≡ some c = rw (t, find) at e in
        let own : has_user c.user_id d ≡ true =
          subst (λ x. has_user x.user_id d ≡ true) (some-injective d c same) (==_refl d.user_id) in
        absurd (ground arith)
    | inr f ↦
        let (x, xs, rest) = found-drained id cs c (rw (f, find) at e) in
        (x, xs, rw (other, keep) rest)
  ]
]

module _ (scale : ℕ → ℕ) where
  clocks-allocate_video_layers :
      (id t m now : ℕ) (call : Call)
      → clocks (allocate_video_layers scale id t m now call) ≡ clocks call
  unfolding allocate_video_layers
  clocks-allocate_video_layers id t m now call = elim (Option-cases (find_client id call.clients)) [
    | inl missing ↦ rw (missing, allocate_video_layers) refl
    | inr (r, found) ↦ rw (found, allocate_video_layers) refl
  ]

  clocks-reallocate_each :
      (now : ℕ) (rs : List Client) (call : Call)
      → clocks (reallocate_each scale now rs call) ≡ clocks call
  unfolding reallocate_each
  clocks-reallocate_each now [] call = refl
  clocks-reallocate_each now (r ∷ rs) call =
      clocks-reallocate_each now rs _ ∙ clocks-allocate_video_layers _ _ _ now call

  clocks-update_for_removed_clients :
      (ids : List ℕ) (now : ℕ) (call : Call)
      → clocks (update_for_removed_clients scale ids now call) ≡ clocks call
  unfolding update_for_removed_clients reallocate_target_send_rates update_padding_ssrcs
  clocks-update_for_removed_clients ids now call = clocks-reallocate_each now call.clients call

  clocks-promote_client :
      (now : ℕ) (c : NonParticipantClient) (call : Call)
      → clocks (promote_client scale now c call) ≡ (now, call.clients_update_sent)
  unfolding promote_client update_padding_ssrcs will_add_or_remove_client
  clocks-promote_client now c call = clocks-allocate_video_layers _ _ _ now _

  clocks-promote_all :
      (now : ℕ) (c : NonParticipantClient) (cs : List NonParticipantClient) (call : Call)
      → clocks (promote_all scale now (c ∷ cs) call) ≡ (now, call.clients_update_sent)
  unfolding promote_all
  clocks-promote_all now c [] call = clocks-promote_client now c call
  clocks-promote_all now c (d ∷ cs) call =
      clocks-promote_all now d cs (promote_client scale now c call)
      ∙ ap (λ k. (now, k.1)) (clocks-promote_client now c call)

  Noted-add_client :
      (id u : ℕ) (admin : Bool) (r : RegionRelation) (now : ℕ) (call : Call)
      → Noted now call (add_client scale id u admin r now call).1
  unfolding add_client will_add_or_remove_client
  Noted-add_client id u admin r now call =
      if-elim (λ (o : ClientStatus × Call). Noted now call o.1) (contains u call.blocked_users)
        (λ _. (refl, inr (refl, refl)))
        λ _.
          if-elim (λ (o : ClientStatus × Call). Noted now call o.1)
            (admin
              || (not call.new_clients_require_approval || contains u call.approved_users.users))
            (λ _. let e = clocks-promote_client now _ _ in (ap (λ k. k.1) e, inl (ap (λ k. k.0) e)))
            λ _. (refl, inl refl)

  Noted-approve_pending_client :
      (id now : ℕ) (call : Call) → Noted now call (approve_pending_client scale id now call)
  unfolding approve_pending_client
  Noted-approve_pending_client id now call =
      elim (Option-cases (find (has_demux id) call.pending_clients)) [
        | inl missing ↦ rw (missing, approve_pending_client) (refl, inr (refl, refl))
        | inr (c, found) ↦
            let waiting = record call {
              pending_clients = remaining (has_user c.user_id) call.pending_clients;
            } in
            let (x, xs, own) = found-drained id call.pending_clients c found in
            let e : clocks (
                  promote_all scale now (drained (has_user c.user_id) call.pending_clients) waiting)
                ≡ (now, call.clients_update_sent) =
              subst
                (λ l. clocks (promote_all scale now l waiting) ≡ (now, call.clients_update_sent))
                (sym own) (clocks-promote_all now x xs waiting) in
            rw (found, approve_pending_client) (ap (λ k. k.1) e, inl (ap (λ k. k.0) e))
      ]

  Noted-deny_pending_client :
      (id now : ℕ) (call : Call) → Noted now call (deny_pending_client scale id now call)
  unfolding deny_pending_client will_add_or_remove_client
  Noted-deny_pending_client id now call =
      elim (Option-cases (find (has_demux id) call.pending_clients)) [
        | inl missing ↦ rw (missing, deny_pending_client) (refl, inr (refl, refl))
        | inr (c, found) ↦ rw (found, deny_pending_client) (refl, inl refl)
      ]

  Noted-block_client : (id now : ℕ) (call : Call) → Noted now call (block_client scale id now call)
  unfolding block_client will_add_or_remove_client
  Noted-block_client id now call =
      elim (Option-cases (find (has_demux id) (identities call.clients))) [
        | inl missing ↦ rw (missing, block_client) (refl, inr (refl, refl))
        | inr (c, found) ↦
            rw (found, block_client)
              (
                ap (λ k. k.1) (clocks-update_for_removed_clients _ now _),
                inl (ap (λ k. k.0) (clocks-update_for_removed_clients _ now _)),
              )
      ]

  -- What `remove_client` gives back: nothing and the call itself, or the client and a call that
  -- notes the time.
  abbrev Removed : ℕ → Call → Option Client × Call → Type 0
  Removed now call r =
      ((r.0 ≡ none) × (r.1 ≡ call))
      ⊎ ((c : Client) × (r.0 ≡ some c) × (clocks r.1 ≡ (now, call.clients_update_sent)))

  remove_client-Removed :
      (id now : ℕ) (call : Call) → Removed now call (remove_client scale id now call)
  unfolding remove_client will_add_or_remove_client
  remove_client-Removed id now call =
      elim (Option-cases (find (λ c. c.demux_id == id) call.clients)) [
        | inl missing ↦ rw (missing, remove_client) (inl (refl, refl))
        | inr (c, found) ↦
            rw (found, remove_client)
              (inr (c, refl, clocks-update_for_removed_clients (id ∷ []) now _))
      ]

  Noted-drop_other : (id now : ℕ) (call : Call) → Noted now call (drop_other scale id now call)
  unfolding will_add_or_remove_client
  Noted-drop_other id now call = elim (Bool-cases (any (has_demux id) call.pending_clients)) [
    | inl t ↦ rw (t, if◌then◌else◌) (refl, inl refl)
    | inr f ↦ rw (f, if◌then◌else◌) (refl, inr (refl, refl))
  ]

  pub Noted-drop_client :
      (id now : ℕ) (call : Call) → Noted now call (drop_client scale id now call)
  unfolding drop_client
  Noted-drop_client id now call =
      let r = remove_client scale id now call in
      let rest : Option Client → Call =
        λ o. elim o [ none ↦ drop_other scale id now r.1 | some c ↦ r.1 ] in
      Noted-lower_raised_hand id now call (rest r.0) (elim (remove_client-Removed id now call) [
        | inl (e, f) ↦
            subst (λ o. Noted now call (rest o)) (sym e)
              (subst (λ d. Noted now call (drop_other scale id now d)) (sym f)
                (Noted-drop_other id now call))
        | inr (c, e, k) ↦
            subst (λ o. Noted now call (rest o)) (sym e) (ap (λ t. t.1) k, inl (ap (λ t. t.0) k))
      ])

  Noted-force_remove_client :
      (id now : ℕ) (call : Call) → Noted now call (force_remove_client scale id now call)
  unfolding force_remove_client
  Noted-force_remove_client id now call =
      let r = remove_client scale id now call in
      let removed : Client → Call = λ c. record r.1 {
        approved_users =
            if any (has_user c.user_id) (identities r.1.clients)
            then r.1.approved_users
            else revoke c.user_id r.1.approved_users;
        removed_clients = r.1.removed_clients ++ (c.info ∷ []);
      } in
      let rest : Option Client → Call =
        λ o. elim o [ none ↦ r.1 | some c ↦ lower_raised_hand id now (removed c) ] in
      elim (remove_client-Removed id now call) [
        | inl (e, f) ↦
            subst (λ o. Noted now call (rest o)) (sym e)
              (subst (Noted now call) (sym f) (refl, inr (refl, refl)))
        | inr (c, e, k) ↦
            subst (λ o. Noted now call (rest o)) (sym e)
              (Noted-lower_raised_hand id now call (removed c)
                (ap (λ t. t.1) k, inl (ap (λ t. t.0) k)))
      ]

  pub Noted-step : (call : Call) (r : ℕ × Request) → Noted r.0 call (step scale call r)
  unfolding step
  Noted-step call (now, join id u admin r) = Noted-add_client id u admin r now call
  Noted-step call (now, approves id) = Noted-approve_pending_client id now call
  Noted-step call (now, denies id) = Noted-deny_pending_client id now call
  Noted-step call (now, leave id) = Noted-drop_client id now call
  Noted-step call (now, removes id) = Noted-force_remove_client id now call
  Noted-step call (now, blocks id) = Noted-block_client id now call

-- ===== src/Call/Members/Removal.antt =====
-- The operations that take clients out of a call do what their specifications say.
use signal_calling_service.Prelude.{
  ℕ, Bool, true, false, not, Option, none, some, List, [], ◌∷◌, ◌++◌, map, ◌≡◌, refl, ap, sym, ◌∙◌,
  ◌==◌, if◌then◌else◌, inl, inr, Bool-cases, Option-cases, find, any,
}
use signal_calling_service.Call.State.{
  NonParticipantClient, Client, Call, identities, set_insert, revoke,
}
use signal_calling_service.Call.Members.{
  will_add_or_remove_client, remove_client, drop_client, force_remove_client, block_client,
  update_for_removed_clients, swap_remove, has_user, has_demux, user_of, drained, remaining,
  drop_other,
}
use signal_calling_service.Call.Members.View.{
  View, view, view-lower_raised_hand, view-update_for_removed_clients,
}
use signal_calling_service.Call.Members.Identities.{
  identities-keep, find-identities, identities-swap_remove,
}
use signal_calling_service.Call.Members.Spec.{if_found, block_user, drop_one, expel}

abbrev is_client : ℕ → Client → Bool
is_client id c = c.demux_id == id

module _ (scale : ℕ → ℕ) (id now : ℕ) (call : Call) where
  -- What `remove_client` leaves when it finds the client.
  abbrev left : Call
  left =
      update_for_removed_clients scale (id ∷ []) now (record (will_add_or_remove_client now call) {
        clients = swap_remove (is_client id) (will_add_or_remove_client now call).clients;
      })

  remove_client-missing :
      find (is_client id) call.clients ≡ none → remove_client scale id now call ≡ (none, call)
  unfolding remove_client
  remove_client-missing e = rw (e, remove_client)

  remove_client-found :
      (c : Client)
      → find (is_client id) call.clients ≡ some c
      → remove_client scale id now call ≡ (some c, left)
  unfolding remove_client
  remove_client-found c e = rw (e, remove_client)

  view-left :
      view left ≡ record (view call) { members = swap_remove (has_demux id) (view call).members }
  view-left = view-update_for_removed_clients scale (id ∷ []) now _ ∙ shrink
    where
      shrink :
          view (record (will_add_or_remove_client now call) {
            clients = swap_remove (is_client id) (will_add_or_remove_client now call).clients;
          })
          ≡ record (view call) { members = swap_remove (has_demux id) (view call).members }
      shrink =
          unfold view will_add_or_remove_client in
          ap (λ ms. record (view call) { members = ms })
            (identities-swap_remove (has_demux id) call.clients)

  find_missing :
      find (is_client id) call.clients ≡ none → find (has_demux id) (view call).members ≡ none
  unfolding view
  find_missing e = rw (find-identities id call.clients, e)

  find_found :
      (c : Client)
      → find (is_client id) call.clients ≡ some c
      → find (has_demux id) (view call).members ≡ some c.info
  unfolding view
  find_found c e = rw (find-identities id call.clients, e)

  -- What `force_remove_client` changes besides.
  abbrev banish : Client → Call → Call
  banish c rest = record rest {
    approved_users =
        if any (has_user c.user_id) (identities rest.clients)
        then rest.approved_users
        else revoke c.user_id rest.approved_users;
    removed_clients = rest.removed_clients ++ (c.info ∷ []);
  }

  abbrev banish_view : Client → View → View
  banish_view c v = record v {
    approved =
        if any (has_user c.user_id) v.members then v.approved else revoke c.user_id v.approved;
    removed = v.removed ++ (c.info ∷ []);
  }

  view-banish : (c : Client) (rest : Call) → view (banish c rest) ≡ banish_view c (view rest)
  unfolding view
  view-banish c rest = refl

  banish_view-expel :
      (c : Client)
      → banish_view c
          (record (view call) { members = swap_remove (has_demux id) (view call).members })
        ≡ expel id c.info (view call)
  unfolding expel
  banish_view-expel c = refl

  -- `force_remove_client` does `expel` for the first participating client with the demux id, and
  -- nothing if there is none.
  pub view-force_remove_client :
      view (force_remove_client scale id now call)
      ≡ if_found (find (has_demux id) (view call).members) (expel id) (view call)
  unfolding force_remove_client
  view-force_remove_client = elim (Option-cases (find (is_client id) call.clients)) [
    | inl missing ↦
        rw (find_missing missing, remove_client-missing missing, force_remove_client)
          (rw (remove_client-missing missing))
    | inr (c, found) ↦
        rw (find_found c found, remove_client-found c found, force_remove_client)
          (rw (remove_client-found c found) (
            view-lower_raised_hand id now (banish c left)
            ∙ view-banish c left
            ∙ ap (banish_view c) view-left
            ∙ banish_view-expel c))
  ]

  any-find :
      (cs : List NonParticipantClient)
      → any (has_demux id) cs ≡ elim (find (has_demux id) cs) [ none ↦ false | some c ↦ true ]
  any-find [] = refl
  any-find (c ∷ cs) = elim (Bool-cases (has_demux id c)) [
    | inl t ↦ rw (t, any, find)
    | inr f ↦ rw (f, any, find) (any-find cs)
  ]

  view-drop_other :
      any (has_demux id) (view call).members ≡ false
      → view (drop_other scale id now call) ≡ drop_one id (view call)
  unfolding view drop_one will_add_or_remove_client
  view-drop_other e = elim (Bool-cases (any (has_demux id) call.pending_clients)) [
    | inl waiting ↦ rw (e, waiting)
    | inr gone ↦ rw (e, gone)
  ]

  drop_one-member :
      any (has_demux id) (view call).members ≡ true
      → drop_one id (view call)
        ≡ record (view call) { members = swap_remove (has_demux id) (view call).members }
  unfolding drop_one
  drop_one-member e = rw e

  -- `drop_client` does `drop_one`.
  pub view-drop_client : view (drop_client scale id now call) ≡ drop_one id (view call)
  unfolding drop_client
  view-drop_client = elim (Option-cases (find (is_client id) call.clients)) [
    | inl missing ↦
        view-lower_raised_hand id now _
        ∙ rw (remove_client-missing missing) (
            rw (remove_client-missing missing)
              (view-drop_other (rw (any-find (view call).members, find_missing missing))))
    | inr (c, found) ↦
        view-lower_raised_hand id now _
        ∙ rw (remove_client-found c found) (
            rw (remove_client-found c found) (
              view-left
              ∙ sym (drop_one-member (rw (any-find (view call).members, find_found c found)))))
  ]

  -- What `block_client` does for a user.
  abbrev swept : ℕ → Call
  swept u =
      let noted : Call = will_add_or_remove_client now call in
      let gone = identities (drained (λ c. c.user_id == u) noted.clients) in
      update_for_removed_clients scale (map (λ c. c.demux_id) gone) now (record noted {
        clients = remaining (λ c. c.user_id == u) noted.clients;
        removed_clients = noted.removed_clients ++ gone;
      })

  view-swept :
      (u : ℕ)
      → view (swept u) ≡ record (view call) {
        members = remaining (has_user u) (view call).members;
        removed = (view call).removed ++ drained (has_user u) (view call).members;
      }
  view-swept u = view-update_for_removed_clients scale _ now _ ∙ sweep
    where
      sweep :
          view (record (will_add_or_remove_client now call) {
            clients = remaining (λ c. c.user_id == u) (will_add_or_remove_client now call).clients;
            removed_clients =
                (will_add_or_remove_client now call).removed_clients
                ++ identities
                    (drained (λ c. c.user_id == u) (will_add_or_remove_client now call).clients);
          })
          ≡ record (view call) {
            members = remaining (has_user u) (view call).members;
            removed = (view call).removed ++ drained (has_user u) (view call).members;
          }
      sweep =
          unfold view will_add_or_remove_client in
          (λ i. record (view call) {
            members = identities-keep (λ c. not (c.user_id == u)) call.clients i;
            removed = call.removed_clients ++ identities-keep (has_user u) call.clients i;
          })

  -- `block_client` does `block_user` for the user of the first participating client with the demux
  -- id, and nothing if there is none.
  pub view-block_client :
      view (block_client scale id now call)
      ≡ if_found (user_of id (view call).members) block_user (view call)
  unfolding block_client
  view-block_client = elim (Option-cases (user_of id (identities call.clients))) [
    | inl missing ↦ rw (user_missing missing, missing, block_client)
    | inr (u, found) ↦
        rw (user_missing found, found, block_client)
          (view-bar u (swept u) ∙ ap (bar_view u) (view-swept u) ∙ bar_view-block_user u)
  ]
    where
      user_missing :
          {o : Option ℕ}
          → user_of id (identities call.clients) ≡ o
          → user_of id (view call).members ≡ o
      user_missing e = unfold view in e

      bar_view : ℕ → View → View
      bar_view u v = record v { approved = revoke u v.approved; blocked = set_insert u v.blocked }

      view-bar :
          (u : ℕ) (c : Call)
          → view (record c {
            approved_users = revoke u c.approved_users;
            blocked_users = set_insert u c.blocked_users;
          })
            ≡ bar_view u (view c)
      view-bar u c = unfold view in refl

      bar_view-block_user :
          (u : ℕ)
          → bar_view u (record (view call) {
            members = remaining (has_user u) (view call).members;
            removed = (view call).removed ++ drained (has_user u) (view call).members;
          })
            ≡ block_user u (view call)
      bar_view-block_user u = unfold block_user in refl

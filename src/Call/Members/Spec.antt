-- ===== src/Call/Members/Spec.antt =====
-- What admission promises: the operations on a `View`, and that those of the call do just this.
use signal_calling_service.Prelude.{
  ℕ, Bool, not, ◌||◌, Option, none, some, List, [], ◌∷◌, ◌++◌, ◌≡◌, ap, ◌∙◌, if◌then◌else◌, inl,
  inr, Bool-cases, Option-cases, any,
}
use mathlib.Core.List.{map-append, append_assoc, append-nil}
use signal_calling_service.Call.State.{
  RegionRelation, ClientStatus, active, pending, blocked, NonParticipantClient, Call, new_client,
  contains, set_insert, set_remove, approve, revoke,
}
use signal_calling_service.Call.Members.{
  will_add_or_remove_client, promote_client, promote_all, add_client, approve_pending_client,
  deny_pending_client, swap_remove, has_user, has_demux, user_of, drained, remaining,
}
use signal_calling_service.Call.Members.View.{
  View, view, view-allocate_video_layers, view-update_padding_ssrcs,
}

abbrev pub newcomer : ℕ → ℕ → Bool → RegionRelation → NonParticipantClient
newcomer demux_id user_id is_admin region_relation = record {
  demux_id = demux_id;
  user_id = user_id;
  is_admin = is_admin;
  region_relation = region_relation;
  next_server_to_client_data_rtp_seqnum = 1;
}

-- A newcomer is kept out if blocked, joins if an admin or approved or if nobody needs approval, and
-- waits otherwise.
unfoldable pub add : NonParticipantClient → View → ClientStatus × View
add c v =
    if contains c.user_id v.blocked
    then (blocked, record v { removed = v.removed ++ (c ∷ []) })
    else if c.is_admin || (not v.require_approval || contains c.user_id v.approved.users)
    then (
      active,
      record v {
        members = v.members ++ (c ∷ []);
        approved = if v.persist_approval then approve c.user_id v.approved else v.approved;
      },
    )
    else (pending, record v { pending = v.pending ++ (c ∷ []) })

-- All pending clients of a user join; the user is approved and no denial is remembered.
unfoldable pub approve_user : ℕ → View → View
approve_user u v = record v {
  members = v.members ++ drained (has_user u) v.pending;
  pending = remaining (has_user u) v.pending;
  denied = set_remove u v.denied;
  approved = approve u v.approved;
}

-- All pending clients of a user are removed; a second denial blocks the user.
unfoldable pub deny_user : ℕ → View → View
deny_user u v = record v {
  pending = remaining (has_user u) v.pending;
  removed = v.removed ++ drained (has_user u) v.pending;
  denied = set_insert u v.denied;
  blocked = if contains u v.denied then set_insert u v.blocked else v.blocked;
}

-- All participating clients of a user are removed, and the user is blocked and not approved.
unfoldable pub block_user : ℕ → View → View
block_user u v = record v {
  members = remaining (has_user u) v.members;
  removed = v.removed ++ drained (has_user u) v.members;
  approved = revoke u v.approved;
  blocked = set_insert u v.blocked;
}

-- One client leaves: from the participants, else from the pending ones, else from the removed ones.
unfoldable pub drop_one : ℕ → View → View
drop_one id v =
    if any (has_demux id) v.members
    then record v { members = swap_remove (has_demux id) v.members }
    else if any (has_demux id) v.pending
    then record v { pending = swap_remove (has_demux id) v.pending }
    else record v { removed = swap_remove (has_demux id) v.removed }

-- A participating client is moved to the removed ones; the approval of its user ends with the last
-- client.
unfoldable pub expel : ℕ → NonParticipantClient → View → View
expel id c v =
    let members = swap_remove (has_demux id) v.members in
    record v {
      members = members;
      removed = v.removed ++ (c ∷ []);
      approved =
          if any (has_user c.user_id) members then v.approved else revoke c.user_id v.approved;
    }

-- An operation on the client found by its demux id.
abbrev pub if_found {ℓ} : {A : Type ℓ} → Option A → (A → View → View) → View → View
if_found none op v = v
if_found (some a) op v = op a v

view-join :
    (now : ℕ) (c : NonParticipantClient) (call : Call)
    → let noted = will_add_or_remove_client now call in
      view (record noted {
        clients =
            noted.clients
            ++ (new_client c noted.initial_target_send_rate noted.default_requested_max_send_rate
                  now
                ∷ []);
      })
      ≡ record (view call) { members = (view call).members ++ (c ∷ []) }
unfolding view will_add_or_remove_client new_client
view-join now c call = rw map-append

module _ (scale : ℕ → ℕ) where
  view-promote_client :
      (now : ℕ) (c : NonParticipantClient) (call : Call)
      → view (promote_client scale now c call)
        ≡ record (view call) { members = (view call).members ++ (c ∷ []) }
  unfolding promote_client
  view-promote_client now c call =
      view-update_padding_ssrcs _
      ∙ view-allocate_video_layers scale _ _ _ _ _
      ∙ view-join now c call

  view-promote_all :
      (now : ℕ) (cs : List NonParticipantClient) (call : Call)
      → view (promote_all scale now cs call)
        ≡ record (view call) { members = (view call).members ++ cs }
  unfolding promote_all
  view-promote_all now [] call = rw append-nil
  view-promote_all now (c ∷ cs) call =
      view-promote_all now cs (promote_client scale now c call)
      ∙ rw (view-promote_client now c call, append_assoc)

  -- `add_client` admits, refuses or parks the client as `add` does, with the same status.
  pub view-add_client :
      (id u : ℕ) (admin : Bool) (r : RegionRelation) (now : ℕ) (call : Call)
      → let (status, call') = add_client scale id u admin r now call in
        (status, view call') ≡ add (newcomer id u admin r) (view call)
  unfolding add_client add view will_add_or_remove_client
  view-add_client id u admin r now call = elim (Bool-cases (contains u call.blocked_users)) [
    | inl out ↦ rw out
    | inr free ↦
        elim (Bool-cases (
          admin
          || (not call.new_clients_require_approval || contains u call.approved_users.users))) [
            | inl joins ↦ rw (free, joins) (ap (λ v. (active, v)) (view-promote_client now _ _))
            | inr waits ↦ rw (free, waits)
          ]
  ]

  -- `approve_pending_client` does `approve_user` for the user of the first pending client with the
  -- demux id, and nothing if there is none.
  pub view-approve_pending_client :
      (id now : ℕ) (call : Call)
      → view (approve_pending_client scale id now call)
        ≡ if_found (user_of id (view call).pending) approve_user (view call)
  unfolding approve_pending_client approve_user view
  view-approve_pending_client id now call = elim (Option-cases (user_of id call.pending_clients)) [
    | inl missing ↦ rw (missing, approve_pending_client)
    | inr (u, found) ↦
        rw (found, approve_pending_client)
          (ap {A = View} {B = View}
            (λ v. record v { denied = set_remove u v.denied; approved = approve u v.approved })
            (view-promote_all now (drained (has_user u) call.pending_clients)
              (record call { pending_clients = remaining (has_user u) call.pending_clients })))
  ]

  -- `deny_pending_client` does `deny_user` for the user of the first pending client with the demux
  -- id, and nothing if there is none.
  pub view-deny_pending_client :
      (id now : ℕ) (call : Call)
      → view (deny_pending_client scale id now call)
        ≡ if_found (user_of id (view call).pending) deny_user (view call)
  unfolding deny_pending_client deny_user view will_add_or_remove_client
  view-deny_pending_client id now call = elim (Option-cases (user_of id call.pending_clients)) [
    | inl missing ↦ rw (missing, deny_pending_client)
    | inr (u, found) ↦ rw (found, deny_pending_client)
  ]

-- ===== src/Call/Requests/Spec.antt =====
-- What the messages of a device do to admission, of backend/src/call.rs: an admin's are requests,
-- the others' are not.
use signal_calling_service.Prelude.{
  ℕ, ◌≡◌, refl, ap, sym, ◌∙◌, Bool, true, false, ◌&&◌, if-elim, if◌then◌else◌, Option-cases,
  Bool-cases, inl, inr, Option, none, some, List, [], ◌∷◌, ◌++◌, find, is_some, not,
}
use signal_calling_service.Call.Messages.{VideoRequestMessage, DeviceToSfu, same_video_request}
use signal_calling_service.Call.State.{Client, Call, NonParticipantClient, min_target_send_rate}
use signal_calling_service.Call.Layers.{find_client}
use signal_calling_service.Call.Members.{
  has_demux, approve_pending_client, deny_pending_client, force_remove_client, block_client,
}
use signal_calling_service.Call.Members.View.{
  View, view, view-clients, identities-update_client, view-allocate_video_layers,
}
use signal_calling_service.Call.Members.Identities.{find-identities}
use signal_calling_service.Call.Members.Spec.{
  drop_one, view-approve_pending_client, view-deny_pending_client,
}
use signal_calling_service.Call.Members.Removal.{
  view-force_remove_client, view-drop_client, view-block_client,
}
use signal_calling_service.Call.Members.Run.{approves, denies, removes, blocks, view_step}
use signal_calling_service.Call.Requests.{
  for_each_target, request_video, handle_video_request, admin_actions, has_admin_action,
  handle_proto, handle_protos, ready_protos, handle_ready, handle_device_to_sfu,
}
use signal_calling_service.Call.Requests.Decisions.{
  requests, to_targets, step_all, step_all-append, view-for_each_target, requests_none,
}
use signal_calling_service.Call.Requests.Hands.{view-raise_if}

-- What the messages of a sender make of a view, and whether it was a participant for each of them.
unfoldable pub view_protos : ℕ → List DeviceToSfu → View → Bool × View
view_protos sender [] v = (true, v)
view_protos sender (m ∷ ms) v = elim (find (has_demux sender) v.members) [
  | none ↦ (false, v)
  | some c ↦ view_protos sender ms (if c.is_admin then step_all v (requests m) else v)
]

-- What one message of a device makes of a view.
unfoldable pub view_device :
    (DeviceToSfu → Option (List DeviceToSfu)) → DeviceToSfu → ℕ → View → View
view_device receive m sender v =
    if m.leave then drop_one sender v else elim (find (has_demux sender) v.members) [
      | none ↦ v
      | some c ↦ elim (ready_protos receive m) [ none ↦ v | some ms ↦ (view_protos sender ms v).1 ]
    ]

module _ (scale : ℕ → ℕ) where
  view-admin_actions :
      (m : DeviceToSfu) (now : ℕ) (call : Call)
      → view (admin_actions scale m now call) ≡ step_all (view call) (requests m)
  unfolding view_step
  view-admin_actions m now call =
      let approved = for_each_target (λ id. approve_pending_client scale id now) m.approve call in
      let denied = for_each_target (λ id. deny_pending_client scale id now) m.deny approved in
      let removed = for_each_target (λ id. force_remove_client scale id now) m.remove denied in
      let v1 =
        view-for_each_target (λ id. approve_pending_client scale id now) approves
          (λ id. view-approve_pending_client scale id now) m.approve call in
      let v2 =
        view-for_each_target (λ id. deny_pending_client scale id now) denies
          (λ id. view-deny_pending_client scale id now) m.deny approved in
      let v3 =
        view-for_each_target (λ id. force_remove_client scale id now) removes
          (λ id. view-force_remove_client scale id now) m.remove denied in
      let v4 =
        view-for_each_target (λ id. block_client scale id now) blocks
          (λ id. view-block_client scale id now) m.block removed in
      let a = to_targets approves m.approve in
      let d = to_targets denies m.deny in
      let r = to_targets removes m.remove in
      let b = to_targets blocks m.block in
      v4
      ∙ ap (λ v. step_all v b) (v3 ∙ ap (λ v. step_all v r) (v2 ∙ ap (λ v. step_all v d) v1))
      ∙ sym (
          step_all-append a (d ++ (r ++ b)) (view call)
          ∙ step_all-append d (r ++ b) (step_all (view call) a)
          ∙ step_all-append r b (step_all (step_all (view call) a) d))

  view-request_video :
      (r : Option VideoRequestMessage) (sender now : ℕ) (c : Client) (call : Call)
      → view (request_video scale r sender now c call) ≡ view call
  view-request_video none sender now c call = refl
  view-request_video (some r) sender now c call =
      view-allocate_video_layers scale sender c.target_send_rate (min_target_send_rate c) now _
      ∙ view-clients call _ (identities-update_client sender _ call.clients λ b. refl)

  view-handle_video_request :
      (r : Option VideoRequestMessage) (sender now : ℕ) (c : Client) (call : Call)
      → view (handle_video_request scale r sender now c call) ≡ view call
  view-handle_video_request r sender now c call =
      if-elim (λ (b : Call). view b ≡ view call) (same_video_request r c.video_request_proto)
        (λ _. refl) λ _. view-request_video r sender now c call

  view-acted :
      (any admin : Bool) (m : DeviceToSfu) (now : ℕ) (call : Call)
      → has_admin_action m ≡ any
      → view (if any && admin then admin_actions scale m now call else call)
        ≡ (if admin then step_all (view call) (requests m) else view call)
  view-acted true true m now call e = view-admin_actions m now call
  view-acted true false m now call e = refl
  view-acted false false m now call e = refl
  view-acted false true m now call e =
      sym (ap (λ rs. step_all (view call) rs) (requests_none m.approve m.deny m.remove m.block e))

  view-handle_proto :
      (m : DeviceToSfu) (sender now : ℕ) (c : Client) (call : Call)
      → view (handle_proto scale m sender now c call)
        ≡ (if c.is_admin then step_all (view call) (requests m) else view call)
  unfolding handle_proto
  view-handle_proto m sender now c call =
      let asked = handle_video_request scale m.video_request sender now c call in
      view-raise_if now m.raise_hand sender
        (if has_admin_action m && c.is_admin then admin_actions scale m now asked else asked)
      ∙ view-acted (has_admin_action m) c.is_admin m now asked refl
      ∙ ap (λ v. if c.is_admin then step_all v (requests m) else v)
          (view-handle_video_request m.video_request sender now c call)

  find-view :
      (sender : ℕ) (call : Call) (o : Option Client)
      → find_client sender call.clients ≡ o
      → find (has_demux sender) (view call).members ≡ elim o [ none ↦ none | some c ↦ some c.info ]
  unfolding view
  find-view sender call o e =
      find-identities sender call.clients
      ∙ ap (λ b. elim b [ none ↦ none | some c ↦ some c.info ]) e

  view-handle_protos :
      (ms : List DeviceToSfu) (sender now : ℕ) (call : Call)
      → let r = handle_protos scale ms sender now call in
        (not (is_some r.0), view r.1) ≡ view_protos sender ms (view call)
  unfolding handle_protos view_protos
  view-handle_protos [] sender now call = refl
  view-handle_protos (m ∷ ms) sender now call =
      elim (Option-cases (find_client sender call.clients)) [
        | inl missing ↦ rw (missing, find-view sender call none missing, handle_protos, view_protos)
        | inr (c, found) ↦
            rw (found, find-view sender call (some c) found, handle_protos, view_protos)
              (view-handle_protos ms sender now (handle_proto scale m sender now c call)
                ∙ ap (λ v. view_protos sender ms v) (view-handle_proto m sender now c call))
      ]

  view-handle_ready :
      (o : Option (List DeviceToSfu)) (sender now : ℕ) (call : Call)
      → view (handle_ready scale o sender now call).1
        ≡ elim o [ none ↦ view call | some ms ↦ (view_protos sender ms (view call)).1 ]
  view-handle_ready none sender now call = refl
  view-handle_ready (some ms) sender now call =
      ap (λ r. r.1) (view-handle_protos ms sender now call)

  -- Refinement: a message of a device changes who takes part, waits, was removed, is approved,
  -- denied and blocked as the specification says, whatever else it asks for. Leaving drops the
  -- device. Otherwise each message that is ready is, for an admin who is a participant then, the
  -- requests to approve, deny, remove and block the targets that are demux ids, in this order, and
  -- for other participants nothing; and one from a device that is no participant ends it.
  pub handle_device_to_sfu-view :
      (receive : DeviceToSfu → Option (List DeviceToSfu)) (m : DeviceToSfu) (sender now : ℕ)
      (call : Call)
      → view (handle_device_to_sfu scale receive m sender now call).1
        ≡ view_device receive m sender (view call)
  unfolding handle_device_to_sfu view_device
  handle_device_to_sfu-view receive m sender now call = elim (Bool-cases m.leave) [
    | inl leaves ↦
        rw (leaves, handle_device_to_sfu, view_device) (view-drop_client scale sender now call)
    | inr stays ↦ elim (Option-cases (find_client sender call.clients)) [
      | inl missing ↦
          rw (stays, missing, find-view sender call none missing, handle_device_to_sfu, view_device)
      | inr (c, found) ↦
          rw (stays, found, find-view sender call (some c) found, handle_device_to_sfu, view_device)
            (view-handle_ready (ready_protos receive m) sender now call)
    ]
  ]

view_protos-powerless :
    (ms : List DeviceToSfu) (sender : ℕ) (v : View) (c : NonParticipantClient)
    → find (has_demux sender) v.members ≡ some c
    → c.is_admin ≡ false
    → (view_protos sender ms v).1 ≡ v
unfolding view_protos
view_protos-powerless [] sender v c f n = refl
view_protos-powerless (m ∷ ms) sender v c f n =
    rw (f, n, view_protos) (view_protos-powerless ms sender v c f n)

-- The messages of a participant who is not an admin, if it does not leave, change nobody's
-- admission: nobody joins, leaves, is approved, denied, removed or blocked by them, whatever they
-- say and however many become ready at once.
pub handle_device_to_sfu-powerless :
    (scale : ℕ → ℕ) (receive : DeviceToSfu → Option (List DeviceToSfu)) (m : DeviceToSfu)
    (sender now : ℕ) (call : Call) (c : Client)
    → find_client sender call.clients ≡ some c
    → c.is_admin ≡ false
    → m.leave ≡ false
    → view (handle_device_to_sfu scale receive m sender now call).1 ≡ view call
unfolding view_device
handle_device_to_sfu-powerless scale receive m sender now call c found plain stays =
    let members = find-view scale sender call (some c) found in
    handle_device_to_sfu-view scale receive m sender now call
    ∙ (elim (Option-cases (ready_protos receive m)) [
      | inl malformed ↦ rw (stays, members, malformed, view_device)
      | inr (ms, ready) ↦
          rw (stays, members, ready, view_device)
            (view_protos-powerless ms sender (view call) c.info members plain)
    ])

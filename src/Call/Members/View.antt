-- ===== src/Call/Members/View.antt =====
-- Admission alone: a call seen as its lists of participants and its sets of users. The allocation of
-- video, padding, raised hands and times do not show.
use signal_calling_service.Prelude.{
  ℕ, Bool, List, [], ◌∷◌, map, ◌≡◌, refl, ap, ap₂, ◌∙◌, ◌==◌, arith, inl, inr, Bool-cases,
  Option-cases,
}
use signal_calling_service.Call.State.{
  NonParticipantClient, Client, Call, ApprovedUsers, identities,
}
use signal_calling_service.Call.Allocation.{AllocatableVideo, AllocatedVideo}
use signal_calling_service.Call.Layers.{
  update_client, find_client, allocate_to, steer, steer_all, allocate_video_layers, reallocate_each,
  reallocate_target_send_rates, pad_clients, update_padding_ssrcs,
}
use signal_calling_service.Call.Members.{
  will_add_or_remove_client, lower_raised_hand, update_for_removed_clients, forget_senders,
}

pub record View : Type 0 where
  pub require_approval : Bool
  pub persist_approval : Bool
  pub members : List NonParticipantClient
  pub pending : List NonParticipantClient
  pub removed : List NonParticipantClient
  pub approved : ApprovedUsers
  pub denied : List ℕ
  pub blocked : List ℕ

unfoldable pub view : Call → View
view call = record {
  require_approval = call.new_clients_require_approval;
  persist_approval = call.persist_approval_for_all_users_who_join;
  members = identities call.clients;
  pending = call.pending_clients;
  removed = call.removed_clients;
  approved = call.approved_users;
  denied = call.denied_users;
  blocked = call.blocked_users;
}

pub view-clients :
    (call : Call) (cs : List Client)
    → identities cs ≡ identities call.clients
    → view (record call { clients = cs }) ≡ view call
unfolding view
view-clients call cs e = rw e

view-kept :
    (call : Call) (cs : List Client) (sent : List (ℕ × ℕ))
    → identities cs ≡ identities call.clients
    → view (record call { clients = cs; key_frame_request_sent_by_ssrc = sent }) ≡ view call
unfolding view
view-kept call cs sent e = rw e

pub identities-update_client :
    (id : ℕ) (g : Client → Client) (cs : List Client)
    → ((c : Client) → (g c).info ≡ c.info)
    → identities (update_client id g cs) ≡ identities cs
unfolding update_client
identities-update_client id g [] e = refl
identities-update_client id g (c ∷ cs) e = elim (Bool-cases (c.demux_id == id)) [
  | inl hit ↦ rw hit (ap (λ i. i ∷ identities cs) (e c))
  | inr miss ↦ rw miss (ap (λ is. c.info ∷ is) (identities-update_client id g cs e))
]

pub identities-map :
    (g : Client → Client) (cs : List Client)
    → ((c : Client) → (g c).info ≡ c.info)
    → identities (map g cs) ≡ identities cs
identities-map g [] e = refl
identities-map g (c ∷ cs) e = ap₂ ◌∷◌ (e c) (identities-map g cs e)

info-steer_all :
    (m : List (ℕ × AllocatedVideo)) (vs : List AllocatableVideo) (c : Client)
    → (steer_all m vs c).info ≡ c.info
unfolding steer_all steer
info-steer_all m [] c = refl
info-steer_all m (v ∷ vs) c = info-steer_all m vs (steer m v.sender_demux_id c)

info-forget_senders : (ids : List ℕ) (c : Client) → (forget_senders ids c).info ≡ c.info
info-forget_senders [] c = refl
info-forget_senders (id ∷ ids) c = info-forget_senders ids _

module _ (scale : ℕ → ℕ) where
  info-allocate_to :
      (t m now : ℕ) (vs : List AllocatableVideo) (c : Client)
      → (allocate_to scale t m now vs c).info ≡ c.info
  unfolding allocate_to
  info-allocate_to t m now vs c = info-steer_all _ vs _

  pub view-allocate_video_layers :
      (id t m now : ℕ) (call : Call)
      → view (allocate_video_layers scale id t m now call) ≡ view call
  unfolding allocate_video_layers
  view-allocate_video_layers id t m now call = elim (Option-cases (find_client id call.clients)) [
    | inl missing ↦ rw (missing, allocate_video_layers)
    | inr (r, found) ↦
        rw (found, allocate_video_layers)
          (view-clients call _
            (identities-update_client id _ call.clients (λ c. info-allocate_to t m now _ c)))
  ]

  pub view-reallocate_each :
      (now : ℕ) (rs : List Client) (call : Call)
      → view (reallocate_each scale now rs call) ≡ view call
  unfolding reallocate_each
  view-reallocate_each now [] call = refl
  view-reallocate_each now (r ∷ rs) call =
      view-reallocate_each now rs _ ∙ view-allocate_video_layers _ _ _ now call

  pub view-reallocate_target_send_rates :
      (now : ℕ) (call : Call) → view (reallocate_target_send_rates scale now call) ≡ view call
  unfolding reallocate_target_send_rates
  view-reallocate_target_send_rates now call = view-reallocate_each now call.clients call

identities-pad_clients : (cs : List Client) → identities (pad_clients cs) ≡ identities cs
unfolding pad_clients
identities-pad_clients [] = refl
identities-pad_clients (c ∷ []) = refl
identities-pad_clients (c ∷ d ∷ cs) =
    ap (λ is. c.info ∷ d.info ∷ is) (identities-map _ cs (λ e. refl))

pub view-update_padding_ssrcs : (call : Call) → view (update_padding_ssrcs call) ≡ view call
unfolding update_padding_ssrcs
view-update_padding_ssrcs call = view-clients call _ (identities-pad_clients call.clients)

pub view-will_add_or_remove_client :
    (now : ℕ) (call : Call) → view (will_add_or_remove_client now call) ≡ view call
unfolding view will_add_or_remove_client
view-will_add_or_remove_client now call = refl

pub view-lower_raised_hand :
    (id now : ℕ) (call : Call) → view (lower_raised_hand id now call) ≡ view call
unfolding view lower_raised_hand
view-lower_raised_hand id now call = ground arith

pub view-update_for_removed_clients :
    (scale : ℕ → ℕ) (ids : List ℕ) (now : ℕ) (call : Call)
    → view (update_for_removed_clients scale ids now call) ≡ view call
unfolding update_for_removed_clients
view-update_for_removed_clients scale ids now call =
    view-kept _ _ _ (identities-map _ _ (info-forget_senders ids))
    ∙ view-update_padding_ssrcs _
    ∙ view-reallocate_target_send_rates scale now call

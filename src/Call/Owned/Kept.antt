-- ===== src/Call/Owned/Kept.antt =====
-- The operations of backend/src/call.rs keep the SSRCs of the video forwarders.
use signal_calling_service.Prelude.{
  ℕ, ◌≡◌, refl, ◌∙◌, Bool, not, ◌||◌, ◌==◌, inl, inr, Option-cases, if-elim, unwrap_or, List, [],
  ◌∷◌, map, find, any, All, All-append, All-keep,
}
use signal_calling_service.Prelude.Dict.{get, All-insert}
use signal_calling_service.Call.Simulcast.{SimulcastForwarder, new_forwarder}
use signal_calling_service.Call.Ssrc.{video0, to_ssrc}
use signal_calling_service.Call.Allocation.{AllocatableVideo, AllocatedVideo}
use signal_calling_service.Call.State.{
  NonParticipantClient, Client, Call, new_client, RegionRelation, ClientStatus, contains,
  identities,
}
use signal_calling_service.Call.Layers.{
  find_client, update_client, desired_ssrc, steer, steer_all, allocate_to, allocate_video_layers,
  reallocate_each, reallocate_target_send_rates, pad_clients, update_padding_ssrcs,
}
use signal_calling_service.Call.Members.{
  init_last, fill_gap, swap_remove, forget_senders, promote_client, promote_all, add_client,
  approve_pending_client, deny_pending_client, update_for_removed_clients, remove_client,
  lower_raised_hand, hand_is_up, drop_other, drop_client, force_remove_client, block_client,
  drained, has_user, has_demux, user_of, will_add_or_remove_client,
}
use signal_calling_service.Call.Members.Run.{
  Request, join, approves, denies, leave, removes, blocks, step,
}
use signal_calling_service.Call.Owned.{Owned, All-get, All-erase, outgoing_ssrc-set_desired_ssrc}

abbrev pub Wired : Call → Type 0
Wired call = All Owned call.clients

abbrev Own : ℕ × SimulcastForwarder → Type 0
Own e = e.1.outgoing_ssrc ≡ to_ssrc video0 e.0

-- The forwarder for a sender, found or new.
found_or_new :
    (sender : ℕ) (m : List (ℕ × SimulcastForwarder))
    → All Own m
    → (unwrap_or (get sender m) (new_forwarder (to_ssrc video0 sender))).outgoing_ssrc
      ≡ to_ssrc video0 sender
unfolding new_forwarder
found_or_new sender m a = elim (Option-cases (get sender m)) [
  | inl missing ↦ rw missing refl
  | inr (f, found) ↦ rw found (All-get Own sender f m a found)
]

Owned-steer :
    (m : List (ℕ × AllocatedVideo)) (sender : ℕ) (c : Client) → Owned c → Owned (steer m sender c)
unfolding steer
Owned-steer m sender c o =
    All-insert Own sender _ c.video_forwarder_by_sender_demux_id
      (outgoing_ssrc-set_desired_ssrc _ (desired_ssrc sender m)
        ∙ found_or_new sender c.video_forwarder_by_sender_demux_id o)
      o

Owned-steer_all :
    (m : List (ℕ × AllocatedVideo)) (vs : List AllocatableVideo) (c : Client)
    → Owned c
    → Owned (steer_all m vs c)
unfolding steer_all
Owned-steer_all m [] c o = o
Owned-steer_all m (v ∷ vs) c o =
    Owned-steer_all m vs (steer m v.sender_demux_id c) (Owned-steer m v.sender_demux_id c o)

Owned-forget_senders : (ids : List ℕ) (c : Client) → Owned c → Owned (forget_senders ids c)
Owned-forget_senders [] c o = o
Owned-forget_senders (id ∷ ids) c o =
    Owned-forget_senders ids _ (All-erase Own id c.video_forwarder_by_sender_demux_id o)

pub All-update_client :
    (id : ℕ) (g : Client → Client)
    → ((c : Client) → Owned c → Owned (g c))
    → (cs : List Client) → All Owned cs
    → All Owned (update_client id g cs)
unfolding update_client
All-update_client id g keeps [] a = tt
All-update_client id g keeps (c ∷ cs) a =
    if-elim (All Owned) (c.demux_id == id) (λ _. (keeps c a.0, a.1))
      λ _. (a.0, All-update_client id g keeps cs a.1)

pub All-map :
    (g : Client → Client)
    → ((c : Client) → Owned c → Owned (g c))
    → (cs : List Client) → All Owned cs
    → All Owned (map g cs)
All-map g keeps [] a = tt
All-map g keeps (c ∷ cs) a = (keeps c a.0, All-map g keeps cs a.1)

All-pad_clients : (cs : List Client) → All Owned cs → All Owned (pad_clients cs)
unfolding pad_clients
All-pad_clients [] a = tt
All-pad_clients (c ∷ []) a = a
All-pad_clients (c ∷ d ∷ cs) a = (a.0, (a.1.0, All-map _ (λ e o. o) cs a.1.1))

All-init_last :
    (c : Client) (cs : List Client)
    → Owned c
    → All Owned cs
    → All Owned (init_last c cs).0 × Owned (init_last c cs).1
All-init_last c [] o a = (tt, o)
All-init_last c (d ∷ cs) o a = let rest = All-init_last d cs a.0 a.1 in ((o, rest.0), rest.1)

All-fill_gap : (cs : List Client) → All Owned cs → All Owned (fill_gap cs)
All-fill_gap [] a = tt
All-fill_gap (c ∷ cs) a = let rest = All-init_last c cs a.0 a.1 in (rest.1, rest.0)

All-swap_remove :
    (p : Client → Bool) (cs : List Client) → All Owned cs → All Owned (swap_remove p cs)
All-swap_remove p [] a = tt
All-swap_remove p (c ∷ cs) a =
    if-elim (All Owned) (p c) (λ _. All-fill_gap cs a.1) λ _. (a.0, All-swap_remove p cs a.1)

Wired-lower_raised_hand :
    (id now : ℕ) (call : Call) → Wired call → Wired (lower_raised_hand id now call)
unfolding lower_raised_hand
Wired-lower_raised_hand id now call w = elim (Option-cases call.raised_hands) [
  | inl none_there ↦ rw (none_there, lower_raised_hand) w
  | inr (hands, there) ↦
      rw (there, lower_raised_hand)
        (if-elim Wired (hand_is_up (find (λ h. h.demux_id == id) hands)) (λ _. w) λ _. w)
]

module _ (scale : ℕ → ℕ) where
  Owned-allocate_to :
      (t m now : ℕ) (vs : List AllocatableVideo) (c : Client)
      → Owned c
      → Owned (allocate_to scale t m now vs c)
  unfolding allocate_to
  Owned-allocate_to t m now vs c o = Owned-steer_all _ vs _ o

  pub Wired-allocate_video_layers :
      (id t m now : ℕ) (call : Call)
      → Wired call
      → Wired (allocate_video_layers scale id t m now call)
  unfolding allocate_video_layers
  Wired-allocate_video_layers id t m now call w =
      elim (Option-cases (find_client id call.clients)) [
        | inl missing ↦ rw (missing, allocate_video_layers) w
        | inr (r, found) ↦
            rw (found, allocate_video_layers)
              (All-update_client id _ (λ c o. Owned-allocate_to t m now _ c o) call.clients w)
      ]

  pub Wired-reallocate_each :
      (now : ℕ) (rs : List Client) (call : Call)
      → Wired call
      → Wired (reallocate_each scale now rs call)
  unfolding reallocate_each
  Wired-reallocate_each now [] call w = w
  Wired-reallocate_each now (r ∷ rs) call w =
      Wired-reallocate_each now rs _ (Wired-allocate_video_layers _ _ _ now call w)

  Wired-update_for_removed_clients :
      (ids : List ℕ) (now : ℕ) (call : Call)
      → Wired call
      → Wired (update_for_removed_clients scale ids now call)
  unfolding update_for_removed_clients update_padding_ssrcs reallocate_target_send_rates
  Wired-update_for_removed_clients ids now call w =
      All-map (forget_senders ids) (Owned-forget_senders ids) _
        (All-pad_clients _ (Wired-reallocate_each now call.clients call w))

  Wired-promote_client :
      (now : ℕ) (c : NonParticipantClient) (call : Call)
      → Wired call
      → Wired (promote_client scale now c call)
  unfolding promote_client update_padding_ssrcs will_add_or_remove_client new_client
  Wired-promote_client now c call w =
      All-pad_clients _
        (Wired-allocate_video_layers _ _ _ now _ (All-append Owned call.clients _ w (tt, tt)))

  Wired-promote_all :
      (now : ℕ) (cs : List NonParticipantClient) (call : Call)
      → Wired call
      → Wired (promote_all scale now cs call)
  unfolding promote_all
  Wired-promote_all now [] call w = w
  Wired-promote_all now (c ∷ cs) call w =
      Wired-promote_all now cs _ (Wired-promote_client now c call w)

  Wired-add_client :
      (id user : ℕ) (admin : Bool) (region : RegionRelation) (now : ℕ) (call : Call)
      → Wired call
      → Wired (add_client scale id user admin region now call).1
  unfolding add_client will_add_or_remove_client
  Wired-add_client id user admin region now call w =
      let P : ClientStatus × Call → Type 0 = λ r. Wired r.1 in
      if-elim P (contains user call.blocked_users) (λ _. w)
        λ _.
          if-elim P
            (admin
              || (not call.new_clients_require_approval || contains user call.approved_users.users))
            (λ _. Wired-promote_client now _ _ w) λ _. w

  pub Wired-approve_pending_client :
      (id now : ℕ) (call : Call) → Wired call → Wired (approve_pending_client scale id now call)
  unfolding approve_pending_client
  Wired-approve_pending_client id now call w =
      elim (Option-cases (user_of id call.pending_clients)) [
        | inl missing ↦ rw (missing, approve_pending_client) w
        | inr (user, found) ↦
            rw (found, approve_pending_client)
              (Wired-promote_all now (drained (has_user user) call.pending_clients) _ w)
      ]

  pub Wired-deny_pending_client :
      (id now : ℕ) (call : Call) → Wired call → Wired (deny_pending_client scale id now call)
  unfolding deny_pending_client will_add_or_remove_client
  Wired-deny_pending_client id now call w = elim (Option-cases (user_of id call.pending_clients)) [
    | inl missing ↦ rw (missing, deny_pending_client) w
    | inr (user, found) ↦ rw (found, deny_pending_client) w
  ]

  Wired-remove_client :
      (id now : ℕ) (call : Call) → Wired call → Wired (remove_client scale id now call).1
  unfolding remove_client will_add_or_remove_client
  Wired-remove_client id now call w =
      elim (Option-cases (find (λ c. c.demux_id == id) call.clients)) [
        | inl missing ↦ rw (missing, remove_client) w
        | inr (c, found) ↦
            rw (found, remove_client)
              (Wired-update_for_removed_clients (id ∷ []) now _
                (All-swap_remove (λ b. b.demux_id == id) call.clients w))
      ]

  Wired-drop_other : (id now : ℕ) (call : Call) → Wired call → Wired (drop_other scale id now call)
  unfolding will_add_or_remove_client
  Wired-drop_other id now call w =
      if-elim Wired (any (has_demux id) call.pending_clients) (λ _. w) λ _. w

  pub Wired-drop_client :
      (id now : ℕ) (call : Call) → Wired call → Wired (drop_client scale id now call)
  unfolding drop_client
  Wired-drop_client id now call w =
      let r = remove_client scale id now call in
      let left = Wired-remove_client id now call w in
      Wired-lower_raised_hand id now _ (elim (Option-cases r.0) [
        | inl missing ↦ rw missing (Wired-drop_other id now r.1 left)
        | inr (c, found) ↦ rw found left
      ])

  pub Wired-force_remove_client :
      (id now : ℕ) (call : Call) → Wired call → Wired (force_remove_client scale id now call)
  unfolding force_remove_client
  Wired-force_remove_client id now call w =
      let r = remove_client scale id now call in
      let left = Wired-remove_client id now call w in
      elim (Option-cases r.0) [
        | inl missing ↦ rw (missing, force_remove_client) left
        | inr (c, found) ↦ rw (found, force_remove_client) (Wired-lower_raised_hand id now _ left)
      ]

  pub Wired-block_client :
      (id now : ℕ) (call : Call) → Wired call → Wired (block_client scale id now call)
  unfolding block_client will_add_or_remove_client
  Wired-block_client id now call w = elim (Option-cases (user_of id (identities call.clients))) [
    | inl missing ↦ rw (missing, block_client) w
    | inr (user, found) ↦
        rw (found, block_client)
          (Wired-update_for_removed_clients _ now _
            (All-keep Owned (λ c. not (c.user_id == user)) call.clients w))
  ]

  pub Wired-step : (call : Call) (r : ℕ × Request) → Wired call → Wired (step scale call r)
  unfolding step
  Wired-step call (now, join id user admin region) w =
      Wired-add_client id user admin region now call w
  Wired-step call (now, approves id) w = Wired-approve_pending_client id now call w
  Wired-step call (now, denies id) w = Wired-deny_pending_client id now call w
  Wired-step call (now, leave id) w = Wired-drop_client id now call w
  Wired-step call (now, removes id) w = Wired-force_remove_client id now call w
  Wired-step call (now, blocks id) w = Wired-block_client id now call w

-- ===== src/Call/Life/Messages.antt =====
-- The messages of devices, of backend/src/call.rs keep the SSRCs of the video forwarders.
use signal_calling_service.Prelude.{
  ℕ, Bool, ◌&&◌, ltb, inl, inr, Option-cases, if-elim, Option, none, some, unwrap_or, List, [], ◌∷◌,
}
use signal_calling_service.Prelude.Dict.{get}
use signal_calling_service.Call.Messages.{
  DeviceToSfu, VideoRequestMessage, RaiseHand, same_video_request,
}
use signal_calling_service.Call.State.{Client, Call, RaisedHand, min_target_send_rate}
use signal_calling_service.Call.Layers.{find_client}
use signal_calling_service.Call.Owned.Kept.{
  Wired, All-update_client, Wired-allocate_video_layers, Wired-approve_pending_client,
  Wired-deny_pending_client, Wired-force_remove_client, Wired-block_client, Wired-drop_client,
}
use signal_calling_service.Call.Hands.{has_hand, modify_hand, handle_raise_hand}
use signal_calling_service.Call.Incoming.{Error}
use signal_calling_service.Call.Requests.{
  target, act_on, for_each_target, raise_if, request_video, handle_video_request, admin_actions,
  has_admin_action, handle_proto, handle_protos, ready_protos, handle_ready, handle_device_to_sfu,
}

Wired-act_on :
    (act : ℕ → Call → Call)
    → ((id : ℕ) (call : Call) → Wired call → Wired (act id call))
    → (o : Option ℕ) (call : Call) → Wired call
    → Wired (act_on act o call)
Wired-act_on act keeps none call w = w
Wired-act_on act keeps (some id) call w = keeps id call w

Wired-for_each_target :
    (act : ℕ → Call → Call)
    → ((id : ℕ) (call : Call) → Wired call → Wired (act id call))
    → (ts : List (Option ℕ)) (call : Call) → Wired call
    → Wired (for_each_target act ts call)
unfolding for_each_target
Wired-for_each_target act keeps [] call w = w
Wired-for_each_target act keeps (t ∷ ts) call w =
    Wired-for_each_target act keeps ts _ (Wired-act_on act keeps (target t) call w)

Wired-modify_hand :
    (now : ℕ) (h : RaisedHand) (n : ℕ) (hs : List RaisedHand) (call : Call) (o : Option ℕ)
    → Wired call
    → Wired (modify_hand now h n hs call o)
Wired-modify_hand now h n hs call none w = w
Wired-modify_hand now h n hs call (some m) w = if-elim Wired (ltb m n) (λ _. w) λ _. w

Wired-fields :
    (now : ℕ) (raise : Option Bool) (seqnum : Option ℕ) (sender : ℕ) (call : Call)
    → Wired call
    → Wired (handle_raise_hand now (record { raise = raise; seqnum = seqnum }) sender call)
unfolding handle_raise_hand
Wired-fields now none n sender call w = w
Wired-fields now (some up) none sender call w = w
Wired-fields now (some up) (some n) sender call w =
    if-elim Wired (has_hand sender (unwrap_or call.raised_hands []))
      (λ _.
        Wired-modify_hand now (record { demux_id = sender; raise = up }) n
          (unwrap_or call.raised_hands []) call (get sender call.raised_hands_seqnums) w)
      λ _. w

Wired-raise_if :
    (now : ℕ) (m : Option RaiseHand) (sender : ℕ) (call : Call)
    → Wired call
    → Wired (raise_if now m sender call)
Wired-raise_if now none sender call w = w
Wired-raise_if now (some m) sender call w = Wired-fields now m.raise m.seqnum sender call w

module _ (scale : ℕ → ℕ) where
  Wired-request_video :
      (r : Option VideoRequestMessage) (sender now : ℕ) (c : Client) (call : Call)
      → Wired call
      → Wired (request_video scale r sender now c call)
  Wired-request_video none sender now c call w = w
  Wired-request_video (some r) sender now c call w =
      Wired-allocate_video_layers scale sender c.target_send_rate (min_target_send_rate c) now _
        (All-update_client sender _ (λ b o. o) call.clients w)

  Wired-admin_actions :
      (m : DeviceToSfu) (now : ℕ) (call : Call)
      → Wired call
      → Wired (admin_actions scale m now call)
  Wired-admin_actions m now call w =
      Wired-for_each_target _ (λ id. Wired-block_client scale id now) m.block _
        (Wired-for_each_target _ (λ id. Wired-force_remove_client scale id now) m.remove _
          (Wired-for_each_target _ (λ id. Wired-deny_pending_client scale id now) m.deny _
            (Wired-for_each_target _ (λ id. Wired-approve_pending_client scale id now) m.approve
              call w)))

  Wired-handle_proto :
      (m : DeviceToSfu) (sender now : ℕ) (c : Client) (call : Call)
      → Wired call
      → Wired (handle_proto scale m sender now c call)
  unfolding handle_proto
  Wired-handle_proto m sender now c call w =
      let asked = handle_video_request scale m.video_request sender now c call in
      let wired : Wired asked =
        if-elim Wired (same_video_request m.video_request c.video_request_proto) (λ _. w)
          λ _. Wired-request_video m.video_request sender now c call w in
      Wired-raise_if now m.raise_hand sender _ (
        if-elim Wired (has_admin_action m && c.is_admin)
          (λ _. Wired-admin_actions m now asked wired) λ _. wired)

  Wired-handle_protos :
      (ms : List DeviceToSfu) (sender now : ℕ) (call : Call)
      → Wired call
      → Wired (handle_protos scale ms sender now call).1
  unfolding handle_protos
  Wired-handle_protos [] sender now call w = w
  Wired-handle_protos (m ∷ ms) sender now call w =
      elim (Option-cases (find_client sender call.clients)) [
        | inl missing ↦ rw (missing, handle_protos) w
        | inr (c, found) ↦
            rw (found, handle_protos)
              (Wired-handle_protos ms sender now _ (Wired-handle_proto m sender now c call w))
      ]

  Wired-handle_ready :
      (o : Option (List DeviceToSfu)) (sender now : ℕ) (call : Call)
      → Wired call
      → Wired (handle_ready scale o sender now call).1
  Wired-handle_ready none sender now call w = w
  Wired-handle_ready (some ms) sender now call w = Wired-handle_protos ms sender now call w

  pub Wired-handle_device_to_sfu :
      (receive : DeviceToSfu → Option (List DeviceToSfu)) (m : DeviceToSfu) (sender now : ℕ)
      (call : Call)
      → Wired call
      → Wired (handle_device_to_sfu scale receive m sender now call).1
  unfolding handle_device_to_sfu
  Wired-handle_device_to_sfu receive m sender now call w =
      if-elim (λ (r : Option Error × Call). Wired r.1) m.leave
        (λ _. Wired-drop_client scale sender now call w)
        λ _. elim (Option-cases (find_client sender call.clients)) [
          | inl missing ↦ rw missing w
          | inr (c, found) ↦
              rw found (Wired-handle_ready (ready_protos receive m) sender now call w)
        ]

-- ===== src/Call/Life/Arrivals.antt =====
-- What clients and congestion control send to a call of backend/src/call.rs keeps the SSRCs of the
-- video forwarders.
use signal_calling_service.Prelude.{
  ℕ, ◌≡◌, sym, subst, ltb, inl, inr, Option, none, some, Result, if-elim, Option-cases, List, [],
  ◌∷◌,
}
use signal_calling_service.Prelude.Dict.{get, All-insert}
use signal_calling_service.Call.Messages.{DeviceToSfu}
use signal_calling_service.Call.Simulcast.{SimulcastForwarder, set_needs_key_frame}
use signal_calling_service.Call.Ssrc.{demux_from_ssrc, video0, to_ssrc}
use signal_calling_service.Call.State.{Client, Call}
use signal_calling_service.Call.Layers.{find_client}
use signal_calling_service.Call.Owned.{Owned, All-get}
use signal_calling_service.Call.Owned.Kept.{Wired, All-update_client}
use signal_calling_service.Call.Incoming.{MediaPacket, Error}
use signal_calling_service.Call.Media.{RtpToSend}
use signal_calling_service.Call.Media.Outcome.{handle_media_rtp-Wired}
use signal_calling_service.Call.SendRate.{
  change_found, set_target_send_rate, note_target_send_rate, set_outgoing_queue_drain_rate,
}
use signal_calling_service.Call.Dispatch.{
  is_client_to_server_data, nothing_to_forward, handle_decoded, handle_rtp, mark_found,
  mark_requested, mark_all_requested, handle_key_frame_requests,
}
use signal_calling_service.Call.Life.Messages.{Wired-handle_device_to_sfu}
use signal_calling_service.Call.Life.Ticks.{Wired-send_key_frame_requests}

abbrev Own : ℕ × SimulcastForwarder → Type 0
Own e = e.1.outgoing_ssrc ≡ to_ssrc video0 e.0

Owned-mark_found :
    (id : ℕ) (c : Client)
    → Owned c
    → Owned (mark_found id (get id c.video_forwarder_by_sender_demux_id) c)
unfolding set_needs_key_frame
Owned-mark_found id c o = elim (Option-cases (get id c.video_forwarder_by_sender_demux_id)) [
  | inl missing ↦ subst (λ f. Owned (mark_found id f c)) (sym missing) o
  | inr (f, found) ↦
      subst (λ f. Owned (mark_found id f c)) (sym found)
        (All-insert Own id (set_needs_key_frame f) c.video_forwarder_by_sender_demux_id
          (All-get Own id f c.video_forwarder_by_sender_demux_id o found) o)
]

Owned-mark_all_requested :
    (ssrcs : List ℕ) (c : Client) → Owned c → Owned (mark_all_requested ssrcs c)
unfolding mark_all_requested
Owned-mark_all_requested [] c o = o
Owned-mark_all_requested (ssrc ∷ ssrcs) c o =
    Owned-mark_all_requested ssrcs (mark_requested ssrc c)
      (Owned-mark_found (demux_from_ssrc ssrc) c o)

pub Wired-handle_key_frame_requests :
    (id : ℕ) (ssrcs : List ℕ) (now : ℕ) (call : Call)
    → Wired call
    → Wired (handle_key_frame_requests id ssrcs now call).1
unfolding handle_key_frame_requests
Wired-handle_key_frame_requests id ssrcs now call w =
    elim (Option-cases (find_client id call.clients)) [
      | inl missing ↦ rw (missing, handle_key_frame_requests) w
      | inr (c, found) ↦
          rw (found, handle_key_frame_requests)
            (Wired-send_key_frame_requests now _ (
              All-update_client id (mark_all_requested ssrcs) (Owned-mark_all_requested ssrcs)
                call.clients w))
    ]

Wired-change_found :
    (change : Client → Client)
    → ((c : Client) → Owned c → Owned (change c))
    → (id : ℕ) (call : Call) (o : Option Client) → Wired call
    → Wired (change_found change id call o).1
Wired-change_found change keeps id call none w = w
Wired-change_found change keeps id call (some c) w =
    All-update_client id change keeps call.clients w

pub Wired-set_target_send_rate :
    (id rate now : ℕ) (call : Call) → Wired call → Wired (set_target_send_rate id rate now call).1
unfolding set_target_send_rate note_target_send_rate
Wired-set_target_send_rate id rate now call w =
    Wired-change_found (note_target_send_rate rate now)
      (λ c o. if-elim Owned (ltb c.next_min_target_generation_update_time now) (λ _. o) λ _. o) id
      call (find_client id call.clients) w

pub Wired-set_outgoing_queue_drain_rate :
    (id rate : ℕ) (call : Call) → Wired call → Wired (set_outgoing_queue_drain_rate id rate call).1
unfolding set_outgoing_queue_drain_rate
Wired-set_outgoing_queue_drain_rate id rate call w =
    Wired-change_found (λ c. record c { outgoing_queue_drain_rate = rate }) (λ c o. o) id call
      (find_client id call.clients) w

Wired-nothing_to_forward : (r : Option Error × Call) → Wired r.1 → Wired (nothing_to_forward r).1
Wired-nothing_to_forward (none, call) w = w
Wired-nothing_to_forward (some e, call) w = w

module _ (decode : List ℕ → Option DeviceToSfu) (receive : DeviceToSfu → Option (List DeviceToSfu))
    (mean : ℕ → ℕ → ℕ) (scale : ℕ → ℕ) where
  Wired-handle_decoded :
      (o : Option DeviceToSfu) (sender now : ℕ) (call : Call)
      → Wired call
      → Wired (handle_decoded decode receive mean scale o sender now call).1
  Wired-handle_decoded none sender now call w = w
  Wired-handle_decoded (some m) sender now call w =
      Wired-nothing_to_forward _ (Wired-handle_device_to_sfu scale receive m sender now call w)

  pub Wired-handle_rtp :
      (sender : ℕ) (p : MediaPacket) (now : ℕ) (call : Call)
      → Wired call
      → Wired (handle_rtp decode receive mean scale sender p now call).1
  unfolding handle_rtp
  Wired-handle_rtp sender p now call w =
      if-elim (λ (r : Result Error (List RtpToSend) × Call). Wired r.1) (is_client_to_server_data p)
        (λ _. Wired-handle_decoded (decode p.payload) sender now call w)
        λ _. handle_media_rtp-Wired mean sender p now call w

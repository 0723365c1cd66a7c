-- ===== src/Call/Life/Ticks.antt =====
-- A tick of backend/src/call.rs keeps the SSRCs of the video forwarders.
use signal_calling_service.Prelude.{
  ℕ, ◌+◌, Bool, true, false, not, ◌||◌, ltb, leb, opt_eq, is_some, inl, inr, Option-cases, if-elim,
  if◌then◌else◌, Option, none, some, List, [], ◌∷◌, keep, All,
}
use signal_calling_service.Call.Intervals.{
  active_speaker_calculation_interval, key_frame_request_calculation_interval,
  stats_message_interval, raised_hands_message_interval, removed_clients_update_interval,
}
use signal_calling_service.Call.Messages.{SfuToDevice}
use signal_calling_service.Call.State.{Client, Call}
use signal_calling_service.Call.Owned.{Owned}
use signal_calling_service.Call.Owned.Kept.{
  Wired, All-update_client, All-map, Wired-reallocate_each,
}
use signal_calling_service.Call.Speaker.{
  calculate_active_speaker, speaker_among, most_active_of, speaking,
}
use signal_calling_service.Call.KeyFrames.{send_key_frame_requests_if_its_been_too_long}
use signal_calling_service.Call.Tick.{
  UpdateToSend, update_each, speaker_due, send_update_to_participating, send_update_to_pending,
  send_update_to_removed, send_raised_hands, send_updates, refreshed, speaker_if_due,
  allocated_too_long_ago, note_update, reallocate_target_send_rates_if_its_been_too_long,
  prepare_tick, tick, is_empty,
}

All-update_each :
    (message : Client → SfuToDevice) (cs : List Client)
    → All Owned cs
    → All Owned (update_each message cs).1
unfolding update_each
All-update_each message [] a = tt
All-update_each message (c ∷ cs) a = (a.0, All-update_each message cs a.1)

abbrev Leaves : List UpdateToSend × Call → Type 0
Leaves r = Wired r.1

Wired-send_update_to_participating :
    (added changed : Bool) (now : ℕ) (call : Call)
    → Wired call
    → Leaves (send_update_to_participating added changed now call)
unfolding send_update_to_participating
Wired-send_update_to_participating added changed now call w =
    if-elim Leaves
      (added
        || (is_some (if speaker_due added changed now call then call.active_speaker_id else none)
            || leb (call.stats_update_sent + stats_message_interval) now))
      (λ _. All-update_each _ call.clients w) λ _. w

Wired-send_update_to_pending :
    (added : Bool) (call : Call) → Wired call → Leaves (send_update_to_pending added call)
unfolding send_update_to_pending
Wired-send_update_to_pending true call w = w
Wired-send_update_to_pending false call w = w

Wired-send_update_to_removed :
    (now : ℕ) (call : Call) → Wired call → Leaves (send_update_to_removed now call)
unfolding send_update_to_removed
Wired-send_update_to_removed now call w =
    if-elim Leaves
      (is_empty call.removed_clients
        || ltb now (call.removed_clients_update_sent + removed_clients_update_interval))
      (λ _. w) λ _. w

Wired-send_raised_hands : (now : ℕ) (call : Call) → Wired call → Leaves (send_raised_hands now call)
unfolding send_raised_hands
Wired-send_raised_hands now call w =
    if-elim Leaves (leb (call.raised_hands_sent + raised_hands_message_interval) now)
      (λ _. elim (Option-cases call.raised_hands) [
        | inl none_there ↦ rw none_there w
        | inr (hands, there) ↦ rw there (All-update_each _ call.clients w)
      ])
      λ _. w

Wired-send_updates :
    (added changed : Bool) (now : ℕ) (call : Call)
    → Wired call
    → Leaves (send_updates added changed now call)
unfolding send_updates
Wired-send_updates added changed now call w = Wired-send_raised_hands now _ (
    Wired-send_update_to_removed now _ (
      Wired-send_update_to_pending added _
        (Wired-send_update_to_participating added changed now call w)))

Wired-speaker_among :
    (cs : List Client) (now : ℕ) (call : Call) → Wired call → Wired (speaker_among cs now call).1
Wired-speaker_among [] now call w = w
Wired-speaker_among (c ∷ cs) now call w =
    let id = (most_active_of (speaking c call) call.clients).demux_id in
    if-elim (λ (r : Option ℕ × Call). Wired r.1) (not (opt_eq call.active_speaker_id (some id)))
      (λ _. All-update_client id _ (λ b o. o) call.clients w) λ _. w

Wired-speaker_if_due : (now : ℕ) (call : Call) → Wired call → Wired (speaker_if_due now call).1
unfolding calculate_active_speaker
Wired-speaker_if_due now call w =
    if-elim (λ (r : Option ℕ × Call). Wired r.1)
      (ltb (call.active_speaker_calculated + active_speaker_calculation_interval) now)
      (λ _.
        Wired-speaker_among call.clients now (record call { active_speaker_calculated = now }) w)
      λ _. w

pub Wired-send_key_frame_requests :
    (now : ℕ) (call : Call)
    → Wired call
    → Wired (send_key_frame_requests_if_its_been_too_long now call).1
unfolding send_key_frame_requests_if_its_been_too_long
Wired-send_key_frame_requests now call w =
    if-elim (λ (r : List (ℕ × ℕ) × Call). Wired r.1)
      (ltb now (call.key_frame_requests_sent + key_frame_request_calculation_interval)) (λ _. w)
      λ _. w

module _ (per smooth : ℕ → ℕ → ℕ) (scale : ℕ → ℕ) where
  Wired-prepare_tick :
      (now : ℕ) (call : Call) → Wired call → Wired (prepare_tick per smooth scale now call).1
  unfolding prepare_tick reallocate_target_send_rates_if_its_been_too_long
  Wired-prepare_tick now call w =
      let spoken = speaker_if_due now (refreshed per smooth scale now call) in
      Wired-reallocate_each scale now (keep (allocated_too_long_ago now) spoken.1.clients)
        (note_update now spoken.1)
        (Wired-speaker_if_due now (refreshed per smooth scale now call)
          (All-map _ (λ c o. o) call.clients w))

  pub Wired-tick :
      (now : ℕ) (call : Call) → Wired call → Wired (tick per smooth scale now call).call
  unfolding tick
  Wired-tick now call w =
      Wired-send_key_frame_requests now _
        (Wired-send_updates _ _ now _ (Wired-prepare_tick now call w))

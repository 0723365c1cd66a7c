-- ===== src/Call/Tick/Told.antt =====
-- Whom a tick tells that clients came or went, in backend/src/call.rs.
use signal_calling_service.Prelude.{
  ℕ, ◌≡◌, refl, ap, sym, subst, ◌∙◌, inl, inr, Bool, true, false, ltb, is_some, if-elim, not,
  opt_eq, ◌+◌, Option, some, List, [], ◌∷◌, ◌++◌, keep, All, Any, All-imp,
}
use signal_calling_service.Call.Intervals.{active_speaker_calculation_interval}
use signal_calling_service.Call.Messages.{SfuToDevice}
use signal_calling_service.Call.State.{NonParticipantClient, Client, Call, identities}
use signal_calling_service.Call.Members.View.{
  view, view-clients, identities-map, identities-update_client, view-reallocate_each,
}
use signal_calling_service.Call.Speaker.{
  calculate_active_speaker, speaker_among, become_speaker, most_active_of, speaking,
}
use signal_calling_service.Call.Tick.{
  UpdateToSend, update_each, update_each_other, send_update_to_participating,
  send_update_to_pending, refreshed, came_or_went, note_update, speaker_if_due,
  allocated_too_long_ago, reallocate_target_send_rates_if_its_been_too_long, prepare_tick,
  send_updates, tick,
}

-- A message to a client that says so.
abbrev pub Tells : ℕ → UpdateToSend → Type 0
Tells id u = (u.0 ≡ id) × (u.1.message.device_joined_or_left ≡ true)

abbrev pub Told : List UpdateToSend → List NonParticipantClient → Type 0
Told sent cs = All (λ c. Any (Tells c.demux_id) sent) cs

Any-left : {A : Type 0} (P : A → Type 0) (xs ys : List A) → Any P xs → Any P (xs ++ ys)
Any-left P [] ys m = absurd m
Any-left P (x ∷ xs) ys (inl h) = inl h
Any-left P (x ∷ xs) ys (inr m) = inr (Any-left P xs ys m)

Any-right : {A : Type 0} (P : A → Type 0) (xs ys : List A) → Any P ys → Any P (xs ++ ys)
Any-right P [] ys m = m
Any-right P (x ∷ xs) ys m = inr (Any-right P xs ys m)

Told-left :
    (a b : List UpdateToSend) (cs : List NonParticipantClient) → Told a cs → Told (a ++ b) cs
Told-left a b cs t = All-imp (λ c m. Any-left (Tells c.demux_id) a b m) cs t

Told-right :
    (a b : List UpdateToSend) (cs : List NonParticipantClient) → Told b cs → Told (a ++ b) cs
Told-right a b cs t = All-imp (λ c m. Any-right (Tells c.demux_id) a b m) cs t

Told-update_each :
    (message : Client → SfuToDevice)
    → ((c : Client) → (message c).device_joined_or_left ≡ true)
    → (cs : List Client) → Told (update_each message cs).0 (identities cs)
unfolding update_each
Told-update_each message says [] = tt
Told-update_each message says (c ∷ cs) =
    (inl (refl, says c), All-imp (λ d m. inr m) (identities cs) (Told-update_each message says cs))

Told-update_each_other :
    (message : SfuToDevice)
    → message.device_joined_or_left ≡ true
    → (cs : List NonParticipantClient) → Told (update_each_other message cs).0 cs
unfolding update_each_other
Told-update_each_other message says [] = tt
Told-update_each_other message says (c ∷ cs) =
    (inl (refl, says), All-imp (λ d m. inr m) cs (Told-update_each_other message says cs))

pending-send_update_to_participating :
    (added just_changed : Bool) (now : ℕ) (call : Call)
    → (send_update_to_participating added just_changed now call).1.pending_clients
      ≡ call.pending_clients
unfolding send_update_to_participating
pending-send_update_to_participating true just_changed now call = refl
pending-send_update_to_participating false just_changed now call =
    if-elim (λ (r : List UpdateToSend × Call). r.1.pending_clients ≡ call.pending_clients) _
      (λ _. refl) λ _. refl

Told-send_updates :
    (just_changed : Bool) (now : ℕ) (call : Call)
    → let sent = (send_updates true just_changed now call).0 in
      Told sent (identities call.clients) × Told sent call.pending_clients
unfolding send_updates send_update_to_participating send_update_to_pending
Told-send_updates just_changed now call =
    let a = send_update_to_participating true just_changed now call in
    let b = send_update_to_pending true a.1 in
    (
      Told-left a.0 _ (identities call.clients) (Told-update_each _ (λ c. refl) call.clients),
      Told-right a.0 _ call.pending_clients (
          Told-left b.0 _ call.pending_clients
            (Told-update_each_other _ refl call.pending_clients)),
    )

-- A new speaker is no change to who is in the call, nor to when they were told.
abbrev Undisturbed : Call → Call → Type 0
Undisturbed before after = (view after ≡ view before) × (came_or_went after ≡ came_or_went before)

Undisturbed-become_speaker :
    (now id : ℕ) (call : Call) → Undisturbed call (become_speaker now id call).1
unfolding view
Undisturbed-become_speaker now id call =
    if-elim (λ (r : Option ℕ × Call). Undisturbed call r.1)
      (not (opt_eq call.active_speaker_id (some id)))
      (λ _. (
        view-clients (record call { active_speaker_id = some id }) _
            (identities-update_client id _ call.clients λ c. refl),
        refl,
      ))
      λ _. (refl, refl)

Undisturbed-speaker_among :
    (cs : List Client) (now : ℕ) (call : Call) → Undisturbed call (speaker_among cs now call).1
Undisturbed-speaker_among [] now call = (refl, refl)
Undisturbed-speaker_among (c ∷ cs) now call =
    Undisturbed-become_speaker now (most_active_of (speaking c call) call.clients).demux_id call

Undisturbed-speaker_if_due : (now : ℕ) (call : Call) → Undisturbed call (speaker_if_due now call).1
unfolding calculate_active_speaker view
Undisturbed-speaker_if_due now call =
    if-elim (λ (r : Option ℕ × Call). Undisturbed call r.1)
      (ltb (call.active_speaker_calculated + active_speaker_calculation_interval) now)
      (λ _.
        Undisturbed-speaker_among call.clients now
          (record call { active_speaker_calculated = now }))
      λ _. (refl, refl)

module _ (per smooth : ℕ → ℕ → ℕ) (scale : ℕ → ℕ) where
  view-prepare_tick :
      (now : ℕ) (call : Call) → view (prepare_tick per smooth scale now call).1 ≡ view call
  unfolding prepare_tick reallocate_target_send_rates_if_its_been_too_long view
  view-prepare_tick now call =
      let spoken = speaker_if_due now (refreshed per smooth scale now call) in
      view-reallocate_each scale now (keep (allocated_too_long_ago now) spoken.1.clients)
        (note_update now spoken.1)
      ∙ (Undisturbed-speaker_if_due now (refreshed per smooth scale now call)).0
      ∙ view-clients call _ (identities-map _ call.clients λ c. refl)

  -- When the test `came_or_went` says so, a tick tells every participant and every client that
  -- waits.
  pub tick-Told :
      (now : ℕ) (call : Call)
      → came_or_went call ≡ true
      → let sent = (tick per smooth scale now call).updates in
        Told sent (identities call.clients) × Told sent call.pending_clients
  unfolding tick prepare_tick view
  tick-Told now call due =
      let prepared = prepare_tick per smooth scale now call in
      let kept = view-prepare_tick now call in
      let changed = is_some prepared.0.0 in
      let still : prepared.0.1 ≡ true =
        (Undisturbed-speaker_if_due now (refreshed per smooth scale now call)).1 ∙ due in
      let sent = (send_updates prepared.0.1 changed now prepared.1).0 in
      let told =
        subst
          (λ b.
            let u = (send_updates b changed now prepared.1).0 in
            Told u (identities prepared.1.clients) × Told u prepared.1.pending_clients)
          (sym still) (Told-send_updates changed now prepared.1) in
      (
        subst (Told sent) (ap (λ v. v.members) kept) told.0,
        subst (Told sent) (ap (λ v. v.pending) kept) told.1,
      )

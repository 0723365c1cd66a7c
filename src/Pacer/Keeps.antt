-- ===== src/Pacer/Keeps.antt =====
-- Histories of calls on a pacer, and what survives all of them.
use signal_calling_service.Prelude.{
  ℕ, Bool, true, false, Option, none, some, List, [], ◌∷◌, ◌&&◌, inl, inr, Bool-cases,
  if◌then◌else◌, ltb, leb,
}
use signal_calling_service.Rtp.Packet.{Packet}
use signal_calling_service.Pacer.{
  Config, Pacer, queue_is_empty, past_send_time, force_enqueue, pop_media,
}
use signal_calling_service.Pacer.Send.{
  update_budget_with_time, update_budget_with_sent_padding, update_budget_with_sent_data,
  set_config, reschedule, send_media, send_padding, dequeue_popped, enqueue, dequeue_padding,
  dequeue, calculate_next_media_send_time, calculate_next_padding_send_time,
}

-- What is called on a pacer, with the instant of the call.
pub data Event : Type 0 where
  configures : Config → Event
  enqueues force_enqueues : Packet → Event
  dequeues : (ℕ → Option Packet) → Event

module _ (times over : ℕ → ℕ → ℕ) where
  unfoldable pub step : Pacer → ℕ × Event → Pacer
  step s (now, configures config) = (set_config times over config now s).1
  step s (now, enqueues media) = (enqueue times over media now s).pacer
  step s (now, force_enqueues media) = force_enqueue media s
  step s (now, dequeues generate_padding) = (dequeue times over generate_padding now s).pacer

  unfoldable pub run : Pacer → List (ℕ × Event) → Pacer
  run s [] = s
  run s (e ∷ es) = run (step s e) es

-- What holds of a pacer after any call, if the steps that calls are made of keep it.
module _ (times over : ℕ → ℕ → ℕ) (P : Pacer → Type 0)
    (timed : (now : ℕ) (s : Pacer) → P s → P (update_budget_with_time times over now s))
    (padded : (n : ℕ) (s : Pacer) → P s → P (update_budget_with_sent_padding times over n s))
    (sent : (n : ℕ) (s : Pacer) → P s → P (update_budget_with_sent_data times over n s))
    (configured : (c : Config) (s : Pacer)
      → P s
      → P (update_budget_with_sent_data times over 0 (record s { config = c })))
    (pushed : (media : Packet) (s : Pacer) → P s → P (force_enqueue media s))
    (popped : (s : Pacer) (now : ℕ) → P s → P (pop_media s now).1) where
  if_keeps : (b : Bool) (s t : Pacer) → P s → P t → P (if b then s else t)
  if_keeps true s t hs ht = hs
  if_keeps false s t hs ht = ht

  reschedule-keeps :
      (new old : Option ℕ) (now : ℕ) (s : Pacer) → P s → P (reschedule times over new old now s).1
  unfolding reschedule
  reschedule-keeps none old now s h = h
  reschedule-keeps (some n) none now s h = elim (Bool-cases (ltb n now)) [
    | inl past ↦ rw past (timed now s h)
    | inr due ↦ rw due h
  ]
  reschedule-keeps (some n) (some o) now s h = elim (Bool-cases (leb n now)) [
    | inl past ↦ rw past (timed _ s h)
    | inr due ↦ rw due h
  ]

  send_media-keeps :
      (media : Packet) (now : ℕ) (s : Pacer) → P s → P (send_media times over media now s).pacer
  send_media-keeps media now s h = sent _ _ (timed now s h)

  enqueue-keeps :
      (media : Packet) (now : ℕ) (s : Pacer) → P s → P (enqueue times over media now s).pacer
  unfolding enqueue
  enqueue-keeps media now s h =
      elim (Bool-cases (
        queue_is_empty s && past_send_time (calculate_next_media_send_time times over now s) now)) [
          | inl at_once ↦ rw at_once (send_media-keeps media now s h)
          | inr waits ↦ rw waits (pushed media s h)
        ]

  send_padding-keeps :
      (o : Option Packet) (now : ℕ) (s : Pacer) → P s → P (send_padding times over o now s).pacer
  unfolding send_padding
  send_padding-keeps none now s h = h
  send_padding-keeps (some padding) now s h = padded _ _ (timed now s h)

  dequeue_padding-keeps :
      (generate_padding : ℕ → Option Packet) (was_empty : Bool) (o : Option ℕ) (now : ℕ) (s : Pacer)
      → P s
      → P (dequeue_padding times over generate_padding was_empty o now s).pacer
  unfolding dequeue_padding
  dequeue_padding-keeps generate_padding was_empty none now s h = h
  dequeue_padding-keeps generate_padding was_empty (some padding_ssrc) now s h =
      elim (Bool-cases (past_send_time (calculate_next_padding_send_time times over now s) now)) [
        | inl due ↦ rw due (send_padding-keeps _ now s h)
        | inr early ↦ rw early h
      ]

  dequeue_popped-keeps :
      (generate_padding : ℕ → Option Packet) (o : Option Packet) (now : ℕ) (s : Pacer)
      → P s
      → P (dequeue_popped times over generate_padding o now s).pacer
  unfolding dequeue_popped
  dequeue_popped-keeps generate_padding none now s h =
      dequeue_padding-keeps generate_padding false _ now s h
  dequeue_popped-keeps generate_padding (some media) now s h = send_media-keeps media now s h

  dequeue-keeps :
      (generate_padding : ℕ → Option Packet) (now : ℕ) (s : Pacer)
      → P s
      → P (dequeue times over generate_padding now s).pacer
  unfolding dequeue
  dequeue-keeps generate_padding now s h = elim (Bool-cases (queue_is_empty s)) [
    | inl empty ↦ rw empty (dequeue_padding-keeps generate_padding true _ now s h)
    | inr busy ↦
        elim (Bool-cases (past_send_time (calculate_next_media_send_time times over now s) now)) [
          | inl due ↦
              rw (busy, due) (dequeue_popped-keeps generate_padding _ now _ (popped s now h))
          | inr early ↦ rw (busy, early) h
        ]
  ]

  step-keeps : (s : Pacer) (e : ℕ × Event) → P s → P (step times over s e)
  unfolding step set_config
  step-keeps s (now, configures config) h = reschedule-keeps _ _ now _ (configured config s h)
  step-keeps s (now, enqueues media) h = enqueue-keeps media now s h
  step-keeps s (now, force_enqueues media) h = pushed media s h
  step-keeps s (now, dequeues generate_padding) h = dequeue-keeps generate_padding now s h

  pub run-keeps : (s : Pacer) (es : List (ℕ × Event)) → P s → P (run times over s es)
  unfolding run
  run-keeps s [] h = h
  run-keeps s (e ∷ es) h = run-keeps (step times over s e) es (step-keeps s e h)

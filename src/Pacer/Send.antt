-- ===== src/Pacer/Send.antt =====
-- The operations of `Pacer` of backend/src/pacer.rs. The products and quotients of a rate and a
-- duration, computed in f64, are the parameters `times` (`rate * duration`) and `over`
-- (`size / rate`).
use signal_calling_service.Prelude.{
  ℕ, ◌+◌, ◌-◌, min, max, Bool, true, false, ◌&&◌, Option, none, some, [], ◌∷◌, ltb, leb, ◌==◌,
  if◌then◌else◌,
}
use signal_calling_service.Rtp.Packet.{Packet, size, entry_time}
use signal_calling_service.Pacer.{
  Config, Pacer, Sends, max_debt_in_time, queue_is_empty, past_send_time, force_enqueue, pop_media,
}

module _ (times over : ℕ → ℕ → ℕ) where
  unfoldable pub calculate_next_media_send_time : ℕ → Pacer → Option ℕ
  calculate_next_media_send_time now s =
      if ltb 0 s.config.media_send_rate
      then elim s.last_sent [
        | none ↦ some now
        | some t ↦ some (t + over s.media_debt s.config.media_send_rate)
      ]
      else none

  unfoldable pub calculate_next_padding_send_time : ℕ → Pacer → Option ℕ
  calculate_next_padding_send_time now s =
      if ltb 0 s.config.padding_send_rate && ltb 0 s.config.media_send_rate
      then elim s.last_sent [
        | none ↦ some now
        | some t ↦ some (
            t
            + max (over s.media_debt s.config.media_send_rate)
                (over s.padding_debt s.config.padding_send_rate))
      ]
      else none

  abbrev pub calculate_next_send_time : ℕ → Pacer → Option ℕ
  calculate_next_send_time now s =
      if queue_is_empty s
      then calculate_next_padding_send_time now s
      else calculate_next_media_send_time now s

  -- An instant before the last one (`checked_duration_since` is none) changes nothing.
  unfoldable pub update_budget_with_time : ℕ → Pacer → Pacer
  update_budget_with_time now s = elim s.last_sent [
    | none ↦ record s { last_sent = some now }
    | some t ↦ if ltb now t then s else record s {
      media_debt = s.media_debt - min s.media_debt (times s.config.media_send_rate (now - t));
      padding_debt =
          s.padding_debt - min s.padding_debt (times s.config.padding_send_rate (now - t));
      last_sent = some now;
    }
  ]

  unfoldable pub update_budget_with_sent_padding : ℕ → Pacer → Pacer
  update_budget_with_sent_padding n s = record s {
    padding_debt =
        if s.config.padding_send_rate == 0
        then s.padding_debt + n
        else min (s.padding_debt + n) (times s.config.padding_send_rate max_debt_in_time);
  }

  unfoldable pub update_budget_with_sent_data : ℕ → Pacer → Pacer
  update_budget_with_sent_data n s = update_budget_with_sent_padding n (record s {
    media_debt =
        if s.config.media_send_rate == 0
        then s.media_debt + n
        else min (s.media_debt + n) (times s.config.media_send_rate max_debt_in_time);
  })

  -- The schedule after a change of configuration, from the new one, if any, and the one before.
  unfoldable pub reschedule : Option ℕ → Option ℕ → ℕ → Pacer → Option ℕ × Pacer
  reschedule none old now s = (none, s)
  reschedule (some new_schedule) none now s =
      if ltb new_schedule now
      then (some now, update_budget_with_time now s)
      else (some new_schedule, s)
  reschedule (some new_schedule) (some old_schedule) now s =
      if leb new_schedule now
      then (
        some now,
        update_budget_with_time (if ltb now old_schedule then now else old_schedule) s,
      )
      else (some new_schedule, s)

  unfoldable pub set_config : Config → ℕ → Pacer → Option ℕ × Pacer
  set_config config now s =
      let changed = update_budget_with_sent_data 0 (record s { config = config }) in
      reschedule (calculate_next_send_time now changed) (calculate_next_send_time now s) now changed

  -- A packet goes out at `now`, and the budget pays for it.
  abbrev pub send_media : Packet → ℕ → Pacer → Sends
  send_media media now s =
      let paid = update_budget_with_sent_data (size media) (update_budget_with_time now s) in
      record { packet = some media; next = calculate_next_send_time now paid; pacer = paid }

  unfoldable pub enqueue : Packet → ℕ → Pacer → Sends
  enqueue media now s =
      if queue_is_empty s && past_send_time (calculate_next_media_send_time now s) now
      then send_media media now s
      else let queued = force_enqueue media s in
        record {
          packet = none;
          next = if queue_is_empty s then calculate_next_send_time now queued else none;
          pacer = queued;
        }

  -- What `generate_padding` made goes out; if it failed, nothing happens.
  unfoldable pub send_padding : Option Packet → ℕ → Pacer → Sends
  send_padding none now s = record { packet = none; next = none; pacer = s }
  send_padding (some padding) now s =
      let paid = update_budget_with_sent_padding (size padding) (update_budget_with_time now s) in
      record { packet = some padding; next = calculate_next_send_time now paid; pacer = paid }

  -- The second half of `dequeue`: padding, where it is configured and due.
  unfoldable pub dequeue_padding : (ℕ → Option Packet) → Bool → Option ℕ → ℕ → Pacer → Sends
  dequeue_padding generate_padding was_empty none now s = record {
    packet = none;
    next = none;
    pacer = s;
  }
  dequeue_padding generate_padding was_empty (some padding_ssrc) now s =
      if past_send_time (calculate_next_padding_send_time now s) now
      then send_padding (generate_padding padding_ssrc) now s
      else record {
        packet = none;
        next = if was_empty then none else calculate_next_send_time now s;
        pacer = s;
      }

  -- The media that was popped goes out, or else padding.
  unfoldable pub dequeue_popped : (ℕ → Option Packet) → Option Packet → ℕ → Pacer → Sends
  dequeue_popped generate_padding none now s =
      dequeue_padding generate_padding false s.config.padding_ssrc now s
  dequeue_popped generate_padding (some media) now s = send_media media now s

  unfoldable pub dequeue : (ℕ → Option Packet) → ℕ → Pacer → Sends
  dequeue generate_padding now s =
      if queue_is_empty s
      then dequeue_padding generate_padding true s.config.padding_ssrc now s
      else if past_send_time (calculate_next_media_send_time now s) now
      then dequeue_popped generate_padding (pop_media s now).0 now (pop_media s now).1
      else record { packet = none; next = none; pacer = s }

  abbrev pub queue_delay : ℕ → Pacer → Option ℕ
  queue_delay now s = elim s.config.padding_ssrc [
    | none ↦ none
    | some padding_ssrc ↦
        if ltb 0 s.config.padding_send_rate
        then elim (calculate_next_media_send_time now s) [
          | none ↦ none
          | some next_send ↦ elim s.video_queue [
            | [] ↦ some (now - next_send)
            | media ∷ queue ↦ elim (entry_time media) [
              | none ↦ none
              | some entered ↦ some (next_send - entered)
            ]
          ]
        ]
        else none
  ]

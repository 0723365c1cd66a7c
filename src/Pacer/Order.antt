-- ===== src/Pacer/Order.antt =====
-- What `dequeue` sends first, and that it does not forget the rest.
use signal_calling_service.Prelude.{
  ℕ, Bool, true, false, Option, none, some, is_some, List, ◌≡◌, ◌⊎◌, refl, ap, sym, ◌∙◌, arith, inl,
  inr, Bool-cases, Option-cases, ltb,
}
use signal_calling_service.Rtp.Packet.{Packet}
use signal_calling_service.Pacer.{Pacer, Sends, queue_is_empty, past_send_time, pop_media}
use signal_calling_service.Pacer.Send.{
  update_budget_with_time, update_budget_with_sent_padding, update_budget_with_sent_data,
  calculate_next_media_send_time, calculate_next_padding_send_time, send_padding, dequeue_padding,
  dequeue, dequeue_popped, send_media,
}
use signal_calling_service.Pacer.Live.{
  first_live, all_queued, Pops, some_pair, none_some, or_video-config, append_empty,
  first_live-not_empty, pop_media-Pops,
}

module _ (times over : ℕ → ℕ → ℕ) where
  with_time-all_queued :
      (now : ℕ) (s : Pacer) → all_queued (update_budget_with_time times over now s) ≡ all_queued s
  unfolding update_budget_with_time
  with_time-all_queued now s = elim (Option-cases s.last_sent) [
    | inl never ↦ rw (never, update_budget_with_time)
    | inr (t, last) ↦ elim (Bool-cases (ltb now t)) [
      | inl past ↦ rw (last, update_budget_with_time, past)
      | inr later ↦ rw (last, update_budget_with_time, later)
    ]
  ]

  send_media-all_queued :
      (media : Packet) (now : ℕ) (s : Pacer)
      → all_queued (send_media times over media now s).pacer ≡ all_queued s
  unfolding update_budget_with_sent_data update_budget_with_sent_padding
  send_media-all_queued media now s = with_time-all_queued now s

  -- When media may be sent, `dequeue` hands out the first packet, retransmissions before video, that
  -- is not past its deadline, and keeps exactly what follows it, in order: all before it is dropped.
  pub dequeue-first_live :
      (generate_padding : ℕ → Option Packet) (now : ℕ) (s : Pacer) (p : Packet) (rest : List Packet)
      → past_send_time (calculate_next_media_send_time times over now s) now ≡ true
      → first_live now (all_queued s) ≡ some (p, rest)
      → let sends = dequeue times over generate_padding now s in
        (sends.packet ≡ some p) × (all_queued sends.pacer ≡ rest)
  unfolding dequeue dequeue_popped Pops
  dequeue-first_live generate_padding now s p rest due live =
      rw (first_live-not_empty now s.video_queue s.rtx_queue rest p live, due)
        (elim (pop_media-Pops now s) [
          | inl (nothing, empty, expired) ↦ none_some (sym expired ∙ live)
          | inr (q, found, first) ↦
              let same = some_pair q p _ rest (sym first ∙ live) in
              rw found (ap some same.0, send_media-all_queued q now (pop_media s now).1 ∙ same.1)
        ])

  media_time :
      (now : ℕ) (s : Pacer)
      → ltb 0 s.config.media_send_rate ≡ true
      → is_some (calculate_next_media_send_time times over now s) ≡ true
  unfolding calculate_next_media_send_time
  media_time now s rate = elim (Option-cases s.last_sent) [
    | inl never ↦ rw (rate, never)
    | inr (t, last) ↦ rw (rate, last)
  ]

  can_send :
      (now : ℕ) (s : Pacer)
      → past_send_time (calculate_next_media_send_time times over now s) now ≡ true
      → ltb 0 s.config.media_send_rate ≡ true
  unfolding calculate_next_media_send_time
  can_send now s due = elim (Bool-cases (ltb 0 s.config.media_send_rate)) [
    | inl rate ↦ rate
    | inr stopped ↦ ground (arith, rw stopped at due)
  ]

  Wakes : Sends → Type 0
  Wakes sends = (queue_is_empty sends.pacer ≡ true) ⊎ (is_some sends.next ≡ true)

  with_time-config :
      (now : ℕ) (s : Pacer) → (update_budget_with_time times over now s).config ≡ s.config
  unfolding update_budget_with_time
  with_time-config now s = elim (Option-cases s.last_sent) [
    | inl never ↦ rw (never, update_budget_with_time)
    | inr (t, last) ↦ elim (Bool-cases (ltb now t)) [
      | inl past ↦ rw (last, update_budget_with_time, past)
      | inr later ↦ rw (last, update_budget_with_time, later)
    ]
  ]

  send_media-Wakes :
      (media : Packet) (now : ℕ) (s : Pacer)
      → ltb 0 s.config.media_send_rate ≡ true
      → Wakes (send_media times over media now s)
  unfolding Wakes update_budget_with_sent_data update_budget_with_sent_padding
  send_media-Wakes media now s rate =
      let paid = (send_media times over media now s).pacer in
      elim (Bool-cases (queue_is_empty paid)) [
        | inl empty ↦ inl empty
        | inr busy ↦ inr (
            rw busy (
              media_time now paid
                (ap (λ c. ltb 0 c.media_send_rate) (with_time-config now s) ∙ rate)))
      ]

  send_padding-all_queued :
      (o : Option Packet) (now : ℕ) (s : Pacer)
      → all_queued (send_padding times over o now s).pacer ≡ all_queued s
  unfolding send_padding update_budget_with_sent_padding
  send_padding-all_queued none now s = refl
  send_padding-all_queued (some padding) now s = with_time-all_queued now s

  dequeue_padding-all_queued :
      (generate_padding : ℕ → Option Packet) (was_empty : Bool) (o : Option ℕ) (now : ℕ) (s : Pacer)
      → all_queued (dequeue_padding times over generate_padding was_empty o now s).pacer
        ≡ all_queued s
  unfolding dequeue_padding
  dequeue_padding-all_queued generate_padding was_empty none now s = refl
  dequeue_padding-all_queued generate_padding was_empty (some padding_ssrc) now s =
      elim (Bool-cases (past_send_time (calculate_next_padding_send_time times over now s) now)) [
        | inl due ↦ rw due (send_padding-all_queued _ now s)
        | inr early ↦ rw early
      ]

  -- When media may be sent and something is queued, `dequeue` leaves the queues empty or says when
  -- to come back.
  pub dequeue-wakes :
      (generate_padding : ℕ → Option Packet) (now : ℕ) (s : Pacer)
      → queue_is_empty s ≡ false
      → past_send_time (calculate_next_media_send_time times over now s) now ≡ true
      → let sends = dequeue times over generate_padding now s in
        (queue_is_empty sends.pacer ≡ true) ⊎ (is_some sends.next ≡ true)
  unfolding dequeue dequeue_popped Pops Wakes
  dequeue-wakes generate_padding now s busy due =
      rw (busy, due)
        (elim (pop_media-Pops now s) [
          | inl (nothing, empty, expired) ↦ rw nothing (
              inl (
                append_empty _ _ (
                  dequeue_padding-all_queued generate_padding false _ now (pop_media s now).1
                  ∙ empty)))
          | inr (q, found, first) ↦ rw found (
              send_media-Wakes q now (pop_media s now).1
                (ap (λ c. ltb 0 c.media_send_rate) (or_video-config _ now _) ∙ can_send now s due))
        ])

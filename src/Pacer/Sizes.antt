-- ===== src/Pacer/Sizes.antt =====
-- The size that a pacer keeps is the size of its queues.
use signal_calling_service.Prelude.{
  ℕ, ◌+◌, ◌-◌, Option, none, some, List, [], ◌∷◌, ◌++◌, ◌≡◌, refl, arith, inl, inr, Bool-cases,
  Option-cases, ltb,
}
use signal_calling_service.Rtp.Packet.{Packet, size, is_rtx, is_past_deadline}
use signal_calling_service.Pacer.{
  Config, Pacer, new_pacer, force_enqueue, pop_media, pop_queue, or_video,
}
use signal_calling_service.Pacer.Send.{
  update_budget_with_time, update_budget_with_sent_padding, update_budget_with_sent_data,
}
use signal_calling_service.Pacer.Keeps.{Event, run, run-keeps}

abbrev pub total : List Packet → ℕ
total [] = 0
total (p ∷ ps) = size p + total ps

abbrev pub IsSized : Pacer → Type 0
IsSized s = s.queued_size ≡ total s.video_queue + total s.rtx_queue

total-append : (ps qs : List Packet) → total (ps ++ qs) ≡ total ps + total qs
total-append [] qs = omega arith
total-append (p ∷ ps) qs = omega (arith, total-append ps qs)

pop_queue-total :
    (now n others : ℕ) (ps : List Packet)
    → n ≡ total ps + others
    → (pop_queue ps n now).left_size ≡ total (pop_queue ps n now).queue + others
unfolding pop_queue
pop_queue-total now n others [] h = h
pop_queue-total now n others (p ∷ ps) h = elim (Bool-cases (is_past_deadline now p)) [
  | inl late ↦ rw late (pop_queue-total now (n - size p) others ps (omega (arith, h)))
  | inr live ↦ rw live (omega (arith, h))
]

force_enqueue-IsSized : (media : Packet) (s : Pacer) → IsSized s → IsSized (force_enqueue media s)
unfolding force_enqueue
force_enqueue-IsSized media s h = elim (Bool-cases (is_rtx media)) [
  | inr plain ↦ rw plain (omega (arith, h, total-append s.video_queue (media ∷ [])))
  | inl rtx ↦ rw rtx (omega (arith, h, total-append s.rtx_queue (media ∷ [])))
]

or_video-IsSized :
    (o : Option Packet) (now : ℕ) (s : Pacer) → IsSized s → IsSized (or_video o now s).1
unfolding or_video
or_video-IsSized none now s h = pop_queue-total now _ _ s.video_queue h
or_video-IsSized (some media) now s h = h

pop_media-IsSized : (s : Pacer) (now : ℕ) → IsSized s → IsSized (pop_media s now).1
pop_media-IsSized s now h = or_video-IsSized _ now _ (
    omega (
      arith,
      pop_queue-total now s.queued_size (total s.video_queue) s.rtx_queue (omega (arith, h)),
    ))

timed-IsSized :
    (times over : ℕ → ℕ → ℕ) (now : ℕ) (s : Pacer)
    → IsSized s
    → IsSized (update_budget_with_time times over now s)
unfolding update_budget_with_time
timed-IsSized times over now s h = elim (Option-cases s.last_sent) [
  | inl never ↦ rw (never, update_budget_with_time) h
  | inr (t, last) ↦ elim (Bool-cases (ltb now t)) [
    | inl past ↦ rw (last, update_budget_with_time, past) h
    | inr later ↦ rw (last, update_budget_with_time, later) h
  ]
]

-- After any history of calls on a new pacer, the queued size is the sum of the sizes of the packets
-- in its two queues.
pub run-IsSized :
    (times over : ℕ → ℕ → ℕ) (config : Config) (es : List (ℕ × Event))
    → IsSized (run times over (new_pacer config) es)
unfolding update_budget_with_sent_padding update_budget_with_sent_data
run-IsSized times over config es =
    run-keeps times over IsSized (timed-IsSized times over) (λ n s h. h) (λ n s h. h) (λ c s h. h)
      force_enqueue-IsSized pop_media-IsSized (new_pacer config) es refl

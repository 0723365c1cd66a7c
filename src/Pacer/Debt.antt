-- ===== src/Pacer/Debt.antt =====
-- The debts of a pacer stay within half a second of its rates.
use signal_calling_service.Prelude.{
  ℕ, ◌+◌, ◌≤◌, ◌<◌, min, Option, none, some, List, arith, inl, inr, Bool-cases, Option-cases,
  if◌then◌else◌, ltb, ◌==◌,
}
use signal_calling_service.Rtp.Packet.{Packet}
use signal_calling_service.Pacer.{
  Config, Pacer, new_pacer, max_debt_in_time, force_enqueue, or_video,
}
use signal_calling_service.Pacer.Send.{
  update_budget_with_time, update_budget_with_sent_padding, update_budget_with_sent_data,
}
use signal_calling_service.Pacer.Keeps.{Event, run, run-keeps}

module _ (times over : ℕ → ℕ → ℕ) where
  -- A debt at a rate other than zero is at most what the rate sends in half a second.
  abbrev pub Within : ℕ → ℕ → Type 0
  Within rate debt = 0 < rate → debt ≤ times rate max_debt_in_time

  abbrev pub DebtBounded : Pacer → Type 0
  DebtBounded s =
      Within s.config.media_send_rate s.media_debt
      × Within s.config.padding_send_rate s.padding_debt

  with_time-DebtBounded :
      (now : ℕ) (s : Pacer) → DebtBounded s → DebtBounded (update_budget_with_time times over now s)
  unfolding update_budget_with_time
  with_time-DebtBounded now s h = elim (Option-cases s.last_sent) [
    | inl never ↦ rw (never, update_budget_with_time) h
    | inr (t, last) ↦ elim (Bool-cases (ltb now t)) [
      | inl past ↦ rw (last, update_budget_with_time, past) h
      | inr later ↦
          rw (last, update_budget_with_time, later)
            ((λ rate. omega (arith, h.0 rate)), λ rate. omega (arith, h.1 rate))
    ]
  ]

  capped-Within :
      (rate debt : ℕ)
      → Within rate (if rate == 0 then debt else min debt (times rate max_debt_in_time))
  capped-Within rate debt = ground arith

  with_sent_padding-DebtBounded :
      (n : ℕ) (s : Pacer)
      → Within s.config.media_send_rate s.media_debt
      → DebtBounded (update_budget_with_sent_padding times over n s)
  unfolding update_budget_with_sent_padding
  with_sent_padding-DebtBounded n s h =
      (h, capped-Within s.config.padding_send_rate (s.padding_debt + n))

  with_sent_data-DebtBounded :
      (n : ℕ) (s : Pacer) → DebtBounded (update_budget_with_sent_data times over n s)
  unfolding update_budget_with_sent_data
  with_sent_data-DebtBounded n s =
      with_sent_padding-DebtBounded n _ (capped-Within s.config.media_send_rate (s.media_debt + n))

  force_enqueue-DebtBounded :
      (media : Packet) (s : Pacer) → DebtBounded s → DebtBounded (force_enqueue media s)
  unfolding force_enqueue
  force_enqueue-DebtBounded media s h = elim (Option-cases media.seqnum_in_payload) [
    | inl plain ↦ rw plain h
    | inr (n, rtx) ↦ rw rtx h
  ]

  or_video-DebtBounded :
      (o : Option Packet) (now : ℕ) (s : Pacer) → DebtBounded s → DebtBounded (or_video o now s).1
  unfolding or_video
  or_video-DebtBounded none now s h = h
  or_video-DebtBounded (some media) now s h = h

  -- After any history of calls on a new pacer, however fast packets come, what it owes at a rate
  -- other than zero is at most what the rate sends in half a second, for media and for padding. The
  -- configuration may change on the way.
  pub run-DebtBounded :
      (config : Config) (es : List (ℕ × Event)) → DebtBounded (run times over (new_pacer config) es)
  run-DebtBounded config es =
      run-keeps times over DebtBounded with_time-DebtBounded
        (λ n s h. with_sent_padding-DebtBounded n s h.0) (λ n s h. with_sent_data-DebtBounded n s)
        (λ c s h. with_sent_data-DebtBounded 0 (record s { config = c })) force_enqueue-DebtBounded
        (λ s now h. or_video-DebtBounded _ now _ h) (new_pacer config) es
        ((λ rate. omega arith), λ rate. omega arith)

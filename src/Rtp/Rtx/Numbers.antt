-- ===== src/Rtp/Rtx/Numbers.antt =====
-- The numbers of an RTX stream have no gap and no repetition.
use signal_calling_service.Prelude.{
  ℕ, ◌-◌, ◌<◌, ◌+◌, true, Option, none, some, List, [], ◌∷◌, ◌==◌, ◌≡◌, refl, arith, inl, inr, zero,
  suc, Bool-cases, if◌then◌else◌, ap, ◌∙◌, ==_iff,
}
use signal_calling_service.Prelude.Dict as Dict
use signal_calling_service.Collections.TwoGeneration as TwoGeneration
use signal_calling_service.Collections.TwoGeneration.{TwoGenerationCache}
use signal_calling_service.Rtp.Rtx.Resend.{resend-cases}
use signal_calling_service.Rtp.Packet.{Packet, is_past_deadline, to_rtx_ssrc}
use signal_calling_service.Rtp.Rtx.{
  Key, same_key, RtxSender, new_rtx_sender, increment_seqnum, set_next_seqnum, next_seqnum,
  remember_sent, resend, resend_as_rtx, set_pending, mark_as_sent,
}

pub data Event : Type 0 where
  remembers : Packet → ℕ → Event
  resends : ℕ → ℕ → ℕ → ℕ → Event
  increments : ℕ → Event
  marks : ℕ → ℕ → Event

-- A number given out on a stream, the latest first.
abbrev given : ℕ → Option Packet → List (ℕ × ℕ) → List (ℕ × ℕ)
given r none log = log
given r (some p) log = (r, p.seqnum_in_header) ∷ log

unfoldable pub run : List Event → List (ℕ × ℕ) → RtxSender → List (ℕ × ℕ) × RtxSender
run [] log s = (log, s)
run (remembers p departed ∷ es) log s = run es log (remember_sent p departed s)
run (resends u q now tcc ∷ es) log s =
    let r = resend_as_rtx u q now tcc s in run es (given (to_rtx_ssrc u) r.0 log) r.2
run (increments r ∷ es) log s = let i = increment_seqnum r s in run es ((r, i.0) ∷ log) i.1
run (marks u q ∷ es) log s = run es log (mark_as_sent u q s)

-- The numbers of one stream.
abbrev pub numbers : ℕ → List (ℕ × ℕ) → List ℕ
numbers r [] = []
numbers r ((t, n) ∷ log) = if t == r then n ∷ numbers r log else numbers r log

-- n, n - 1, … 1.
abbrev pub down_from : ℕ → List ℕ
down_from zero = []
down_from (suc n) = suc n ∷ down_from n

-- What was given out on a stream ends just below the next number.
abbrev Counts : List (ℕ × ℕ) → RtxSender → Type 0
Counts log s = (r : ℕ) → (0 < next_seqnum r s) × (numbers r log ≡ down_from (next_seqnum r s - 1))

down_from-next : (n : ℕ) → 0 < n → n ∷ down_from (n - 1) ≡ down_from n
down_from-next zero h = ground arith
down_from-next (suc n) h = ap (λ m. suc n ∷ down_from m) (omega arith)

next_seqnum-set :
    (r t n : ℕ) (s : RtxSender)
    → next_seqnum r (set_next_seqnum t n s) ≡ (if t == r then n else next_seqnum r s)
unfolding next_seqnum set_next_seqnum
next_seqnum-set r t n s = elim (Bool-cases (t == r)) [
  | inl own ↦ rw (Dict.get-insert r t n s.next_outgoing_seqnum_by_ssrc, own)
  | inr other ↦ rw (Dict.get-insert r t n s.next_outgoing_seqnum_by_ssrc, other)
]

back_one : (n : ℕ) → n ≡ n + 1 - 1
back_one n = omega arith

increment_seqnum-Counts :
    (t : ℕ) (log : List (ℕ × ℕ)) (s : RtxSender)
    → Counts log s
    → Counts ((t, next_seqnum t s) ∷ log) (increment_seqnum t s).1
unfolding increment_seqnum
increment_seqnum-Counts t log s h r = elim (Bool-cases (t == r)) [
  | inl own ↦
      rw (next_seqnum-set r t (next_seqnum t s + 1) s, own)
        (rw ((==_iff t r).0 own) (
          omega arith,
          ap (λ ns. next_seqnum r s ∷ ns) (h r).1
              ∙ down_from-next (next_seqnum r s) (h r).0
              ∙ ap down_from (back_one (next_seqnum r s)),
        ))
  | inr other ↦ rw (next_seqnum-set r t (next_seqnum t s + 1) s, other) (h r)
]

enter-Counts :
    (t : ℕ) (log : List (ℕ × ℕ)) (s : RtxSender)
    → Counts log s
    → Counts log (set_next_seqnum t (next_seqnum t s) s)
enter-Counts t log s h r = elim (Bool-cases (t == r)) [
  | inl own ↦ rw (next_seqnum-set r t (next_seqnum t s) s, own) (rw ((==_iff t r).0 own) (h r))
  | inr other ↦ rw (next_seqnum-set r t (next_seqnum t s) s, other) (h r)
]

resend-Counts :
    (o : Option Packet) (key : Key) (now tcc : ℕ) (log : List (ℕ × ℕ)) (s : RtxSender)
    → Counts log s
    → Counts (given (to_rtx_ssrc key.0) (resend o key now tcc s).0 log) (resend o key now tcc s).2
unfolding next_seqnum
resend-Counts o key now tcc log s h = elim (resend-cases o key now tcc s) [
  | inl (nothing, same) ↦ rw (nothing, same) h
  | inr (p, out, number, after) ↦
      rw (out, after, given, number)
        (increment_seqnum-Counts (to_rtx_ssrc key.0) log
          (record s {
            previously_sent_by_seqnum =
                TwoGeneration.get_mut same_key (set_pending true) key s.previously_sent_by_seqnum;
          })
          h)
]

run-Counts :
    (es : List Event) (log : List (ℕ × ℕ)) (s : RtxSender)
    → Counts log s
    → Counts (run es log s).0 (run es log s).1
unfolding run remember_sent mark_as_sent resend_as_rtx increment_seqnum next_seqnum
run-Counts [] log s h = h
run-Counts (remembers p departed ∷ es) log s h =
    run-Counts es log (remember_sent p departed s)
      (elim (Bool-cases (is_past_deadline departed p)) [
        | inl late ↦ rw late h
        | inr live ↦ rw live h
      ])
run-Counts (resends u q now tcc ∷ es) log s h =
    run-Counts es _ (resend_as_rtx u q now tcc s).2
      (resend-Counts _ (u, q) now tcc log _ (enter-Counts (to_rtx_ssrc u) log s h))
run-Counts (increments r ∷ es) log s h =
    run-Counts es ((r, next_seqnum r s) ∷ log) (increment_seqnum r s).1
      (increment_seqnum-Counts r log s h)
run-Counts (marks u q ∷ es) log s h = run-Counts es log _ h

-- After any history of a new sender, the numbers given out on an RTX stream, to packets sent again
-- and to padding alike, are 1, 2, 3 and so on, in order: none is skipped and none is used twice.
pub run-numbers :
    (limit now r : ℕ) (es : List Event)
    → let (log, s) = run es [] (new_rtx_sender limit now) in
      numbers r log ≡ down_from (next_seqnum r s - 1)
unfolding next_seqnum
run-numbers limit now r es =
    (run-Counts es [] (new_rtx_sender limit now) (λ t. (omega arith, refl)) r).1

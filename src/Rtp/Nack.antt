-- ===== src/Rtp/Nack.antt =====
-- `NackSender` of backend/src/rtp/nack.rs: which sequence numbers are asked for again. Instants and
-- durations are nanoseconds.
pub mod Invariant
pub mod Missing
use signal_calling_service.Prelude.{
  ℕ, zero, suc, ◌+◌, ◌-◌, ◌^◌, min, Bool, true, false, ◌||◌, Option, none, some, List, [], ◌∷◌, ltb,
  leb, ◌==◌, if◌then◌else◌,
}
use signal_calling_service.Collections.KeySorted.{KeySortedCache, new_cache, insert, remove}

-- When a NACK was first and last sent, and how often.
pub record Sent : Type 0 where
  pub first_sent : ℕ
  pub last_sent : ℕ
  pub retry_count : ℕ

pub record NackSender : Type 0 where
  pub limit : ℕ
  pub sent_by_seqnum : KeySortedCache (Option Sent)
  pub max_received : Option ℕ

abbrev pub new_nack_sender : ℕ → NackSender
new_nack_sender limit = record {
  limit = limit;
  sent_by_seqnum = new_cache limit;
  max_received = none;
}

-- The loop over `missing_range`, from its start and its number of elements.
unfoldable pub insert_missing : ℕ → ℕ → KeySortedCache (Option Sent) → KeySortedCache (Option Sent)
insert_missing start zero c = c
insert_missing start (suc n) c = insert_missing (suc start) n (insert start none c)

-- The case of a number above the maximum so far; `saturating_add(1)` stops at 2^64 - 1.
unfoldable pub remember_gap : ℕ → ℕ → NackSender → NackSender
remember_gap prev_max_received seqnum s =
    let start = min (prev_max_received + 1) (2 ^ 64 - 1) in
    let missing_count = seqnum - start in
    record s {
      sent_by_seqnum =
          if ltb s.limit missing_count
          then insert_missing (seqnum - s.limit) s.limit (new_cache s.limit)
          else insert_missing start missing_count s.sent_by_seqnum;
      max_received = some seqnum;
    }

unfoldable pub remember_received : ℕ → NackSender → NackSender
remember_received seqnum s = elim s.max_received [
  | none ↦ record s { max_received = some seqnum }
  | some max_received ↦
      if seqnum == max_received
      then s
      else if ltb seqnum max_received
      then record s { sent_by_seqnum = remove seqnum s.sent_by_seqnum }
      else remember_gap max_received seqnum s
]

abbrev pub max_nack_retry_count : ℕ
max_nack_retry_count = 10

-- What `retain` does with an entry: whether it sets `send_any`, and the entry, if it stays. A NACK
-- expires after three seconds.
unfoldable pub retain_nack : ℕ → ℕ → Option Sent → Bool × Option Sent
retain_nack now rtt none =
    (true, some (record { first_sent = now; last_sent = now; retry_count = 1 }))
retain_nack now rtt (some sent) =
    if leb 3_000_000_000 (now - sent.first_sent) || leb max_nack_retry_count sent.retry_count
    then (false, none)
    else if leb rtt (now - sent.last_sent)
    then (true, some (record sent { last_sent = now; retry_count = sent.retry_count + 1 }))
    else (false, some sent)

abbrev pub retained : ℕ → Option Sent → List (ℕ × Option Sent) → List (ℕ × Option Sent)
retained seqnum none m = m
retained seqnum (some sent) m = (seqnum, some sent) ∷ m

unfoldable pub retain_nacks : ℕ → ℕ → List (ℕ × Option Sent) → Bool × List (ℕ × Option Sent)
retain_nacks now rtt [] = (false, [])
retain_nacks now rtt ((seqnum, sent) ∷ m) =
    let kept = retain_nack now rtt sent in
    let rest = retain_nacks now rtt m in (kept.0 || rest.0, retained seqnum kept.1 rest.1)

-- The numbers last asked for at `now`. No entry without a time is left by `retain_nacks`.
unfoldable pub sent_at : ℕ → List (ℕ × Option Sent) → List ℕ
sent_at now [] = []
sent_at now ((seqnum, none) ∷ m) = sent_at now m
sent_at now ((seqnum, some sent) ∷ m) =
    let rest = sent_at now m in if now == sent.last_sent then seqnum ∷ rest else rest

unfoldable pub send_nacks : ℕ → ℕ → NackSender → Option (List ℕ) × NackSender
send_nacks now rtt s =
    let r = retain_nacks now rtt s.sent_by_seqnum.value_by_key in
    (
      (if r.0 then some (sent_at now r.1) else none),
      record s { sent_by_seqnum = record (s.sent_by_seqnum) { value_by_key = r.1 } },
    )

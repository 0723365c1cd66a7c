-- ===== src/Rates.antt =====
-- `DataRateTracker` of common/src/data_rate.rs: what was pushed lately, its sum, and the rate. The
-- newest entry stands first, as in the source; instants are nanoseconds, at least MAX_DURATION after
-- zero. The quotients of floating-point numbers are parameters: `per bits duration` is the rate,
-- `smooth last rate` the moving average.
use signal_calling_service.Prelude.{
  ℕ, zero, suc, ◌+◌, ◌-◌, ◌*◌, ◌≤◌, ◌≡◌, refl, ap, ◌∙◌, Bool, true, false, ltb, leb, if◌then◌else◌,
  Option, none, some, List, [], ◌∷◌, reverse, length, take, drop, arith,
}

pub record DataRateTracker : Type 0 where
  pub history : List (ℕ × ℕ)
  pub accumulated_size : ℕ
  pub rate : Option ℕ
  pub stable_rate : Option ℕ
  pub last_stable_rate : Option ℕ

abbrev pub new_tracker : DataRateTracker
new_tracker = record {
  history = [];
  accumulated_size = 0;
  rate = none;
  stable_rate = none;
  last_stable_rate = none;
}

abbrev pub max_duration : ℕ
max_duration = 5_000_000_000

abbrev pub min_duration : ℕ
min_duration = 500_000_000

-- `push`
unfoldable pub push : ℕ → ℕ → DataRateTracker → DataRateTracker
push size time t = record t {
  history = (time, size) ∷ t.history;
  accumulated_size = t.accumulated_size + size;
}

abbrev pub push_bytes : ℕ → ℕ → DataRateTracker → DataRateTracker
push_bytes size = push (size * 8)

-- `take_while(..).count()`
abbrev pub count_while : (ℕ × ℕ → Bool) → List (ℕ × ℕ) → ℕ
count_while p [] = 0
count_while p (e ∷ es) = elim (p e) [ true ↦ suc (count_while p es) | false ↦ 0 ]

abbrev pub subtract_each : ℕ → List (ℕ × ℕ) → ℕ
subtract_each acc [] = acc
subtract_each acc (e ∷ es) = subtract_each (acc - e.1) es

-- `history.back()`
abbrev pub oldest : List (ℕ × ℕ) → Option ℕ
oldest [] = none
oldest (e ∷ []) = some e.0
oldest (e ∷ f ∷ es) = oldest (f ∷ es)

abbrev pub duration_since : ℕ → Option ℕ → ℕ
duration_since now none = 0
duration_since now (some t) = now - t

abbrev pub smoothed : (ℕ → ℕ → ℕ) → Option ℕ → Option ℕ → Option ℕ
smoothed smooth last none = none
smoothed smooth none (some r) = some r
smoothed smooth (some l) (some r) = some (smooth l r)

abbrev pub kept_count : ℕ → List (ℕ × ℕ) → ℕ
kept_count now history =
    length history - count_while (λ e. ltb e.0 (now - max_duration)) (reverse history)

-- `update`
unfoldable pub update : (ℕ → ℕ → ℕ) → (ℕ → ℕ → ℕ) → ℕ → DataRateTracker → DataRateTracker
update per smooth now t =
    let kept = take (kept_count now t.history) t.history in
    let size = subtract_each t.accumulated_size (drop (kept_count now t.history) t.history) in
    let duration = duration_since now (oldest kept) in
    let rate = if leb min_duration duration then some (per size duration) else none in
    record {
      history = kept;
      accumulated_size = size;
      rate = rate;
      stable_rate = smoothed smooth t.stable_rate rate;
      last_stable_rate = t.stable_rate;
    }

-- What a tracker remembers, in total.
abbrev pub total : List (ℕ × ℕ) → ℕ
total [] = 0
total (e ∷ es) = e.1 + total es

abbrev pub Tracked : DataRateTracker → Type 0
Tracked t = t.accumulated_size ≡ total t.history

total-take : (n : ℕ) (h : List (ℕ × ℕ)) → total (take n h) + total (drop n h) ≡ total h
total-take zero h = omega arith
total-take (suc n) [] = refl
total-take (suc n) (e ∷ h) = omega (arith, total-take n h)

subtract_each-total : (acc : ℕ) (es : List (ℕ × ℕ)) → subtract_each acc es ≡ acc - total es
subtract_each-total acc [] = omega arith
subtract_each-total acc (e ∷ es) = subtract_each-total (acc - e.1) es ∙ omega arith

-- What happens to a tracker.
pub data Event : Type 0 where
  pushed : ℕ → ℕ → Event
  updated : ℕ → Event

module _ (per smooth : ℕ → ℕ → ℕ) where
  abbrev pub happen : Event → DataRateTracker → DataRateTracker
  happen (pushed size time) t = push size time t
  happen (updated now) t = update per smooth now t

  abbrev pub history_of : List Event → DataRateTracker → DataRateTracker
  history_of [] t = t
  history_of (e ∷ es) t = history_of es (happen e t)

  Tracked-push : (size time : ℕ) (t : DataRateTracker) → Tracked t → Tracked (push size time t)
  unfolding push
  Tracked-push size time t h = omega (arith, h)

  Tracked-update : (now : ℕ) (t : DataRateTracker) → Tracked t → Tracked (update per smooth now t)
  unfolding update
  Tracked-update now t h =
      subtract_each-total t.accumulated_size (drop (kept_count now t.history) t.history)
      ∙ omega (arith, h, total-take (kept_count now t.history) t.history)

  Tracked-history : (es : List Event) (t : DataRateTracker) → Tracked t → Tracked (history_of es t)
  Tracked-history [] t h = h
  Tracked-history (pushed size time ∷ es) t h =
      Tracked-history es (push size time t) (Tracked-push size time t h)
  Tracked-history (updated now ∷ es) t h =
      Tracked-history es (update per smooth now t) (Tracked-update now t h)

  -- However a new tracker is pushed to and updated, its accumulated size is the total of the sizes
  -- it remembers, so that no subtraction in an update runs below zero; and an update reports no
  -- rate until the oldest size it keeps is 500 ms old, and then the quotient of the total by the
  -- time since.
  pub update-tracks :
      (es : List Event) (now : ℕ)
      → let before = history_of es new_tracker in
        let after = update per smooth now before in
        (before.accumulated_size ≡ total before.history)
        × (total (drop (kept_count now before.history) before.history) ≤ before.accumulated_size)
        × (after.rate ≡ (
            if leb min_duration (duration_since now (oldest after.history))
            then some (per (total after.history) (duration_since now (oldest after.history)))
            else none))
  unfolding update
  update-tracks es now =
      let before = history_of es new_tracker in
      let tracked = Tracked-history es new_tracker refl in
      (
        tracked,
        omega (arith, tracked, total-take (kept_count now before.history) before.history),
        ap
            (λ s.
              if leb min_duration
                (duration_since now (oldest (take (kept_count now before.history) before.history)))
              then some (
                  per s (
                    duration_since now
                      (oldest (take (kept_count now before.history) before.history))))
              else none)
            (Tracked-update now before tracked),
      )

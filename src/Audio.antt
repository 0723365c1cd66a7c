-- ===== src/Audio.antt =====
-- backend/src/audio.rs: the floor of the audio levels of a client, and which client is more active.
-- The square root in f32 by which the floor creeps up is the parameter `mean`: `mean a b` is
-- `((a as f32) * (b as f32)).sqrt() as Level`. Levels fit in seven bits, so `+ 10` does not wrap.
pub mod Active
use signal_calling_service.Prelude.{
  ℕ, zero, suc, ◌+◌, ◌-◌, min, Bool, true, false, ◌&&◌, not, Option, none, some, List, [], ◌∷◌,
  reverse, map, take, keep, length, ltb, leb, ◌==◌, if◌then◌else◌, unwrap_or,
}
use signal_calling_service.Collections.Ring.{RingBuffer, new_ring, push}

pub record LevelFloorTracker : Type 0 where
  pub floor : Option ℕ
  pub floor_since_reset : Option ℕ
  pub samples_since_reset : ℕ

abbrev pub default_floor : LevelFloorTracker
default_floor = record { floor = none; floor_since_reset = none; samples_since_reset = 0 }

-- 15 seconds of samples of 20 milliseconds.
abbrev pub samples_per_recalculation : ℕ
samples_per_recalculation = 750

abbrev pub reset : ℕ → LevelFloorTracker
reset floor = record { floor = some floor; floor_since_reset = none; samples_since_reset = 0 }

pub record LevelsTracker : Type 0 where
  pub floor : LevelFloorTracker
  pub levels : RingBuffer ℕ

abbrev pub default_levels : LevelsTracker
default_levels = record { floor = default_floor; levels = new_ring 50 }

module _ (mean : ℕ → ℕ → ℕ) where
  -- A sample that is not below the floor, after the first one since the reset.
  abbrev creep : ℕ → ℕ → ℕ → ℕ → LevelFloorTracker
  creep floor since samples sample =
      let floor_since_reset = min sample since in
      let samples_since_reset = samples + 1 in
      if leb samples_per_recalculation samples_since_reset
      then reset (mean floor floor_since_reset)
      else record {
        floor = some floor;
        floor_since_reset = some floor_since_reset;
        samples_since_reset = samples_since_reset;
      }

  abbrev above_floor : ℕ → Option ℕ → ℕ → ℕ → LevelFloorTracker
  above_floor floor none samples sample = record {
    floor = some floor;
    floor_since_reset = some sample;
    samples_since_reset = 1;
  }
  above_floor floor (some since) samples sample = creep floor since samples sample

  abbrev update_from : Option ℕ → ℕ → LevelFloorTracker → LevelFloorTracker
  update_from none sample t = reset sample
  update_from (some floor) sample t =
      if ltb sample floor
      then reset sample
      else above_floor floor t.floor_since_reset t.samples_since_reset sample

  -- The level 0 is ignored.
  unfoldable pub update : ℕ → LevelFloorTracker → LevelFloorTracker
  update sample t = if sample == 0 then t else update_from t.floor sample t

  -- Anything near the floor counts as 0.
  unfoldable pub push_level : ℕ → LevelsTracker → LevelsTracker
  push_level sample t =
      let floor = update sample t.floor in
      let threshold = unwrap_or floor.floor 0 + 10 in
      record {
        floor = floor;
        levels = (push (if leb sample threshold then 0 else sample) t.levels).1;
      }

abbrev pub iter_latest_first : LevelsTracker → List ℕ
iter_latest_first t = reverse t.levels.values

abbrev pub first {ℓ} : {A : Type ℓ} → List A → Option A
first [] = none
first (x ∷ xs) = some x

unfoldable pub latest : LevelsTracker → Option ℕ
latest t = first (iter_latest_first t)

unfoldable pub count_latest_chunk_above_threshold : LevelsTracker → ℕ → ℕ → ℕ
count_latest_chunk_above_threshold t n threshold =
    length (keep (λ level. ltb threshold level) (take n (iter_latest_first t)))

-- The counts of true inputs in chunks of a size: `left` more inputs are to come after the next one.
-- The inputs beyond a multiple of the size are ignored.
abbrev pub count_chunks : ℕ → ℕ → ℕ → List Bool → List ℕ
count_chunks size left count [] = []
count_chunks size zero count (b ∷ bs) =
    (count + (if b then 1 else 0)) ∷ count_chunks size (size - 1) 0 bs
count_chunks size (suc left) count (b ∷ bs) =
    count_chunks size left (count + (if b then 1 else 0)) bs

-- `count_in_chunks_exact` of common/src/lib.rs; it panics for the size 0.
abbrev pub count_in_chunks_exact : List Bool → ℕ → List ℕ
count_in_chunks_exact inputs size = count_chunks size (size - 1) 0 inputs

unfoldable pub count_chunks_above_threshold : LevelsTracker → ℕ → ℕ → ℕ
count_chunks_above_threshold t chunk_size threshold = length (
    keep (λ high_count. high_count == chunk_size)
      (count_in_chunks_exact (map (λ level. ltb threshold level) (iter_latest_first t)) chunk_size))

-- The contender is louder than 40 now, the most active is not even at 40; the contender's last 5
-- levels are above 70, none of the most active's are, and it has more chunks of 5 such levels.
unfoldable pub more_active_than_most_active : LevelsTracker → LevelsTracker → Bool
more_active_than_most_active s most_active =
    let self_first_chunk = count_latest_chunk_above_threshold s 5 70 in
    let most_active_first_chunk = count_latest_chunk_above_threshold most_active 5 70 in
    if leb (unwrap_or (latest s) 0) 40
    then false
    else if leb 40 (unwrap_or (latest most_active) 0)
    then false
    else if ltb self_first_chunk 5
    then false
    else if ltb 0 most_active_first_chunk
    then false
    else if ltb self_first_chunk most_active_first_chunk
    then false
    else not
        (leb (count_chunks_above_threshold s 5 70) (count_chunks_above_threshold most_active 5 70))

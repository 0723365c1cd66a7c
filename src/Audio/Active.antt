-- ===== src/Audio/Active.antt =====
-- Who is more active.
use signal_calling_service.Prelude.{true, false, ◌≡◌, arith, Bool-cases, inl, inr, ◌<◌}
use signal_calling_service.Audio.{
  LevelsTracker, count_chunks_above_threshold, more_active_than_most_active,
}

wins_by_chunks :
    (s t : LevelsTracker)
    → more_active_than_most_active s t ≡ true
    → count_chunks_above_threshold t 5 70 < count_chunks_above_threshold s 5 70
unfolding more_active_than_most_active
wins_by_chunks s t h = ground arith

-- Of two clients at most one is more active than the other.
pub more_active-asymmetric :
    (s t : LevelsTracker)
    → more_active_than_most_active s t ≡ true
    → more_active_than_most_active t s ≡ false
more_active-asymmetric s t h = elim (Bool-cases (more_active_than_most_active t s)) [
  | inl back ↦ ground (arith, wins_by_chunks s t h, wins_by_chunks t s back)
  | inr never ↦ never
]

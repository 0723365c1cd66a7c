-- ===== src/Call/Allocation/Total.antt =====
-- The rates that are allocated stay within what is allocatable.
use signal_calling_service.Prelude.{
  ℕ, ◌+◌, ◌-◌, ◌≤◌, ◌≡◌, arith, List, [], ◌∷◌, min, max, Option-cases, inl, inr,
}
use signal_calling_service.Prelude.Dict.{insert}
use signal_calling_service.Call.Allocation.{
  AllocatedVideo, AllocatableVideo, Allocation, Limits, rate_of, try_layer, allocate_video,
  allocate_layer, allocate_send_rate, allocatable_rate, candidate_layer, sort_videos,
}

abbrev pub total : List (ℕ × AllocatedVideo) → ℕ
total [] = 0
total ((id, a) ∷ m) = a.rate + total m

total-insert :
    (id : ℕ) (a : AllocatedVideo) (m : List (ℕ × AllocatedVideo))
    → total (insert id a m) + rate_of id m ≡ a.rate + total m
total-insert id a [] = ground arith
total-insert id a ((j, b) ∷ m) = ground (arith, total-insert id a m)

-- What the loops keep: the running sum bounds the rates in the map, and neither passes the bound.
pub record Within (bound : ℕ) (a : Allocation) : Type 0 where
  pub counted : total a.by_sender ≤ a.allocated_rate
  pub bounded : a.allocated_rate ≤ bound

try_layer-Within :
    (limits : Limits) (bound : ℕ) (v : AllocatableVideo) (candidate : ℕ) (a : Allocation)
    → limits.existing ≤ bound
    → limits.different ≤ bound
    → Within bound a
    → Within bound (try_layer limits v candidate a)
unfolding try_layer
try_layer-Within limits bound v candidate a he hd w = grind (arith, total-insert)

allocate_video-Within :
    (limits : Limits) (bound i : ℕ) (v : AllocatableVideo) (a : Allocation)
    → limits.existing ≤ bound
    → limits.different ≤ bound
    → Within bound a
    → Within bound (allocate_video limits i v a)
unfolding allocate_video
allocate_video-Within limits bound i v a he hd w = elim (Option-cases (candidate_layer i v)) [
  | inl skipped ↦ rw (skipped, allocate_video) w
  | inr (c, chosen) ↦ rw (chosen, allocate_video) (try_layer-Within limits bound v c a he hd w)
]

allocate_layer-Within :
    (limits : Limits) (bound i : ℕ) (vs : List AllocatableVideo) (a : Allocation)
    → limits.existing ≤ bound
    → limits.different ≤ bound
    → Within bound a
    → Within bound (allocate_layer limits i vs a)
unfolding allocate_layer
allocate_layer-Within limits bound i [] a he hd w = w
allocate_layer-Within limits bound i (v ∷ vs) a he hd w =
    allocate_layer-Within limits bound i vs (allocate_video limits i v a) he hd
      (allocate_video-Within limits bound i v a he hd w)

-- The rates of the layers that are allocated add up to no more than the ideal rate, and to no more
-- than the larger of the two rates that may be allocated, the one for the layers that are forwarded
-- already and the one for others. This holds for every rounding of the ratio.
pub total-allocate_send_rate :
    (scale : ℕ → ℕ) (target min_target ideal drain : ℕ) (videos : List AllocatableVideo)
    → let rates = total (allocate_send_rate scale target min_target ideal drain videos).by_sender in
      (rates ≤ ideal)
      × (rates
          ≤ max
              (allocatable_rate scale target drain ideal)
              (allocatable_rate scale min_target drain ideal))
unfolding allocate_send_rate allocatable_rate
total-allocate_send_rate scale target min_target ideal drain videos =
    let limits : Limits = record {
      existing = min (max (target - drain) (scale target)) ideal;
      different = min (max (min_target - drain) (scale min_target)) ideal;
    } in
    let bound : ℕ = max limits.existing limits.different in
    let sorted = sort_videos videos in
    let w = allocate_layer-Within limits bound 2 sorted _ (omega arith) (omega arith) (
      allocate_layer-Within limits bound 1 sorted _ (omega arith) (omega arith) (
        allocate_layer-Within limits bound 0 sorted (record { by_sender = []; allocated_rate = 0 })
          (omega arith) (omega arith) (omega arith))) in
    (omega (arith, w.counted, w.bounded), omega (arith, w.counted, w.bounded))

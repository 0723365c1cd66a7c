-- ===== src/Call/Allocation/Ideal.antt =====
-- What `ideal_video_layer_index` chooses.
use signal_calling_service.Prelude.{ℕ, zero, suc, ◌≤◌, ◌<◌, ◌≡◌, arith, none, some}
use signal_calling_service.Call.Allocation.{AllocatableVideo, layer_at, ideal_video_layer_index}

-- What a choice must satisfy: something was requested; the layer exists and has a rate; it is as
-- high as was requested, unless no layer with a rate is, in which case it has a height and every
-- layer above it lacks a rate or a height.
pub record IsIdeal (v : AllocatableVideo) (i : ℕ) : Type 0 where
  pub requested : 0 < v.requested_height
  pub exists : i ≤ 2
  pub rate : 0 < (layer_at v i).incoming_rate
  pub enough :
      (j : ℕ)
      → j ≤ 2
      → 0 < (layer_at v j).incoming_rate
      → v.requested_height ≤ (layer_at v j).incoming_height
      → v.requested_height ≤ (layer_at v i).incoming_height
  pub highest :
      (j : ℕ)
      → i < j
      → j ≤ 2
      → (layer_at v i).incoming_height < v.requested_height
      → 0 < (layer_at v j).incoming_rate
      → (layer_at v j).incoming_height ≡ 0

module _ (v : AllocatableVideo) (i : ℕ) (chosen : ideal_video_layer_index v ≡ some i) where
  requested_of : 0 < v.requested_height
  unfolding ideal_video_layer_index
  requested_of = ground arith

  exists_of : i ≤ 2
  unfolding ideal_video_layer_index
  exists_of = ground arith

  rate_of : 0 < (layer_at v i).incoming_rate
  unfolding ideal_video_layer_index
  rate_of = ground arith

  enough_of :
      (j : ℕ)
      → j ≤ 2
      → 0 < (layer_at v j).incoming_rate
      → v.requested_height ≤ (layer_at v j).incoming_height
      → v.requested_height ≤ (layer_at v i).incoming_height
  unfolding ideal_video_layer_index
  enough_of zero h r e = ground arith
  enough_of (suc zero) h r e = ground arith
  enough_of (suc (suc j)) h r e = ground arith

  highest_of :
      (j : ℕ)
      → i < j
      → j ≤ 2
      → (layer_at v i).incoming_height < v.requested_height
      → 0 < (layer_at v j).incoming_rate
      → (layer_at v j).incoming_height ≡ 0
  unfolding ideal_video_layer_index
  highest_of zero lt h low r = absurd (omega arith)
  highest_of (suc zero) lt h low r = ground arith
  highest_of (suc (suc j)) lt h low r = ground arith

-- The layer that is chosen is ideal: something was requested, the layer has a rate, it is as high as
-- was requested if any layer with a rate is, and otherwise no layer above it has a rate and a
-- height.
pub ideal_video_layer_index-IsIdeal :
    (v : AllocatableVideo) (i : ℕ) → ideal_video_layer_index v ≡ some i → IsIdeal v i
ideal_video_layer_index-IsIdeal v i chosen = record {
  requested = requested_of v i chosen;
  exists = exists_of v i chosen;
  rate = rate_of v i chosen;
  enough = enough_of v i chosen;
  highest = highest_of v i chosen;
}

-- When a height was requested, no layer is chosen only if no layer has both a rate and a height.
pub ideal_video_layer_index-none :
    (v : AllocatableVideo) (j : ℕ)
    → ideal_video_layer_index v ≡ none
    → 0 < v.requested_height
    → 0 < (layer_at v j).incoming_rate
    → (layer_at v j).incoming_height ≡ 0
unfolding ideal_video_layer_index
ideal_video_layer_index-none v zero e h r = ground arith
ideal_video_layer_index-none v (suc zero) e h r = ground arith
ideal_video_layer_index-none v (suc (suc j)) e h r = ground arith

-- ===== src/Call/Allocation.antt =====
-- `allocate_send_rate` of backend/src/call.rs and the functions that it uses: which video layer of
-- each sender fits a receiver's send rate. Rates are bits per second, and no sum of them reaches
-- 2^64.
pub mod Total
pub mod Ideal
pub mod Chosen
use signal_calling_service.Prelude.{
  ℕ, zero, suc, ◌+◌, ◌-◌, Bool, true, false, not, ◌&&◌, ◌||◌, Option, none, some, List, [], ◌∷◌,
  map, ltb, leb, ◌==◌, opt_eq, if◌then◌else◌, unwrap_or, min, max, ◌>>=◌,
}
use signal_calling_service.Prelude.Dict.{get, insert}

pub record AllocatableVideoLayer : Type 0 where
  pub incoming_rate : ℕ
  pub incoming_height : ℕ

-- `layers` is an array of three.
pub record AllocatableVideo : Type 0 where
  pub sender_demux_id : ℕ
  pub layer0 : AllocatableVideoLayer
  pub layer1 : AllocatableVideoLayer
  pub layer2 : AllocatableVideoLayer
  pub requested_height : ℕ
  pub allocated_layer_index : Option ℕ
  pub interesting : Option ℕ

pub record AllocatedVideo : Type 0 where
  pub sender_demux_id : ℕ
  pub layer_index : ℕ
  pub rate : ℕ
  pub height : ℕ

-- `video.layers[i]`, for the indices 0, 1 and 2.
abbrev pub layer_at : AllocatableVideo → ℕ → AllocatableVideoLayer
layer_at v zero = v.layer0
layer_at v (suc zero) = v.layer1
layer_at v (suc (suc i)) = v.layer2

-- `video.layers.iter().position(p)` and `rposition(p)`.
abbrev pub position : (AllocatableVideoLayer → Bool) → AllocatableVideo → Option ℕ
position p v =
    if p v.layer0
    then some 0
    else if p v.layer1
    then some 1
    else if p v.layer2
    then some 2
    else none

abbrev pub rposition : (AllocatableVideoLayer → Bool) → AllocatableVideo → Option ℕ
rposition p v =
    if p v.layer2
    then some 2
    else if p v.layer1
    then some 1
    else if p v.layer0
    then some 0
    else none

abbrev pub has_rate : AllocatableVideoLayer → Bool
has_rate l = ltb 0 l.incoming_rate

abbrev pub has_height : AllocatableVideoLayer → Bool
has_height l = ltb 0 l.incoming_height

unfoldable pub ideal_video_layer_index : AllocatableVideo → Option ℕ
ideal_video_layer_index v =
    if v.requested_height == 0
    then none
    else elim (position (λ l. leb v.requested_height l.incoming_height && has_rate l) v) [
      | some first ↦
          rposition (λ l. (l.incoming_height == (layer_at v first).incoming_height) && has_rate l) v
      | none ↦ rposition (λ l. has_rate l && has_height l) v
    ]

-- The sum of the rates of the layers that `index` chooses, one for each video that has one.
abbrev pub sum_rates : (AllocatableVideo → Option ℕ) → List AllocatableVideo → ℕ
sum_rates index [] = 0
sum_rates index (v ∷ vs) =
    elim (index v) [ none ↦ 0 | some i ↦ (layer_at v i).incoming_rate ] + sum_rates index vs

unfoldable pub ideal_send_rate : List AllocatableVideo → ℕ → ℕ
ideal_send_rate videos max_requested_send_rate =
    min (sum_rates ideal_video_layer_index videos) max_requested_send_rate

unfoldable pub base_video_layer_index : AllocatableVideo → Option ℕ
base_video_layer_index v =
    if (v.requested_height == 0) || (v.layer0.incoming_rate == 0) then none else some 0

unfoldable pub requested_base_rate : List AllocatableVideo → ℕ → ℕ
requested_base_rate videos max_requested_send_rate =
    min (sum_rates base_video_layer_index videos) max_requested_send_rate

-- `sort_by_key` on `Reverse((requested_height, interesting))`: stable, the largest key first.
abbrev before_opt : Option ℕ → Option ℕ → Bool
before_opt a none = true
before_opt none (some b) = false
before_opt (some a) (some b) = leb b a

abbrev pub goes_before : AllocatableVideo → AllocatableVideo → Bool
goes_before v w =
    ltb w.requested_height v.requested_height
    || ((v.requested_height == w.requested_height) && before_opt v.interesting w.interesting)

pub insert_sorted : AllocatableVideo → List AllocatableVideo → List AllocatableVideo
insert_sorted v [] = v ∷ []
insert_sorted v (w ∷ ws) = elim (goes_before v w) [
  | true ↦ v ∷ w ∷ ws
  | false ↦ w ∷ insert_sorted v ws
]

unfoldable pub sort_videos : List AllocatableVideo → List AllocatableVideo
unfolding insert_sorted
sort_videos [] = []
sort_videos (v ∷ vs) = insert_sorted v (sort_videos vs)

-- `for possible_layer_index in possible..=ideal`: a higher layer with a smaller rate replaces the
-- candidate. At most two rounds are left, since there are three layers.
pub cheaper_layer : ℕ → ℕ → ℕ → AllocatableVideo → ℕ → ℕ
cheaper_layer zero possible ideal v candidate = candidate
cheaper_layer (suc rounds) possible ideal v candidate =
    cheaper_layer rounds (possible + 1) ideal v (
      if leb possible ideal
        && (not ((layer_at v possible).incoming_height == 0)
            && (not ((layer_at v possible).incoming_rate == 0)
                && ltb (layer_at v possible).incoming_rate (layer_at v candidate).incoming_rate))
      then possible
      else candidate)

-- The layer that a video is tried with in the round for `layer_index`, if it is not skipped.
unfoldable pub candidate_layer : ℕ → AllocatableVideo → Option ℕ
unfolding cheaper_layer
candidate_layer layer_index v =
    let layer = layer_at v layer_index in
    if (layer.incoming_height == 0) && (layer.incoming_rate == 0)
    then none
    else elim (ideal_video_layer_index v) [
      | none ↦ none
      | some ideal ↦
          if ltb ideal layer_index
          then none
          else some (cheaper_layer 2 (layer_index + 1) ideal v layer_index)
    ]

pub record Limits : Type 0 where
  pub existing : ℕ
  pub different : ℕ

-- `allocated_by_sender_demux_id` and `allocated_rate`.
pub record Allocation : Type 0 where
  pub by_sender : List (ℕ × AllocatedVideo)
  pub allocated_rate : ℕ

abbrev pub rate_of : ℕ → List (ℕ × AllocatedVideo) → ℕ
rate_of id m = elim (get id m) [ none ↦ 0 | some a ↦ a.rate ]

-- The body of the inner loop once the candidate is known.
unfoldable pub try_layer : Limits → AllocatableVideo → ℕ → Allocation → Allocation
try_layer limits v candidate a =
    let layer = layer_at v candidate in
    let increased =
      a.allocated_rate + (layer.incoming_rate - rate_of v.sender_demux_id a.by_sender) in
    let allocatable =
      if opt_eq (some candidate) v.allocated_layer_index
      then limits.existing
      else limits.different in
    if ltb allocatable increased then a else record {
      by_sender =
          insert v.sender_demux_id
            (record {
              sender_demux_id = v.sender_demux_id;
              layer_index = candidate;
              rate = layer.incoming_rate;
              height = layer.incoming_height;
            })
            a.by_sender;
      allocated_rate = increased;
    }

unfoldable pub allocate_video : Limits → ℕ → AllocatableVideo → Allocation → Allocation
allocate_video limits layer_index v a = elim (candidate_layer layer_index v) [
  | none ↦ a
  | some candidate ↦ try_layer limits v candidate a
]

unfoldable pub allocate_layer : Limits → ℕ → List AllocatableVideo → Allocation → Allocation
allocate_layer limits layer_index [] a = a
allocate_layer limits layer_index (v ∷ vs) a =
    allocate_layer limits layer_index vs (allocate_video limits layer_index v a)

-- `scale` is the multiplication of a rate by `TARGET_RATE_MINIMUM_ALLOCATION_RATIO`, 0.9, in
-- floating point.
module _ (scale : ℕ → ℕ) where
  unfoldable pub allocatable_rate : ℕ → ℕ → ℕ → ℕ
  allocatable_rate target drain ideal = min (max (target - drain) (scale target)) ideal

  unfoldable pub allocate_send_rate : ℕ → ℕ → ℕ → ℕ → List AllocatableVideo → Allocation
  allocate_send_rate target_send_rate min_target_send_rate ideal drain videos =
      let limits : Limits = record {
        existing = allocatable_rate target_send_rate drain ideal;
        different = allocatable_rate min_target_send_rate drain ideal;
      } in
      let sorted = sort_videos videos in
      allocate_layer limits 2 sorted (
        allocate_layer limits 1 sorted
          (allocate_layer limits 0 sorted (record { by_sender = []; allocated_rate = 0 })))

-- ===== src/Call/Allocation/Chosen.antt =====
-- Every layer that is allocated is a layer of a requested video, no higher than its ideal one.
use signal_calling_service.Prelude.{
  ℕ, zero, suc, ◌+◌, ◌≤◌, ◌≡◌, refl, ◌⊎◌, inl, inr, arith, List, [], ◌∷◌, some, All, Any,
  Option-cases, if◌then◌else◌, Bool-cases, ltb, opt_eq, ◌-◌,
}
use signal_calling_service.Prelude.Dict.{All-insert}
use signal_calling_service.Call.Allocation.{
  AllocatedVideo, AllocatableVideo, Allocation, Limits, layer_at, ideal_video_layer_index,
  cheaper_layer, candidate_layer, try_layer, allocate_video, allocate_layer, allocate_send_rate,
  rate_of, insert_sorted, sort_videos, goes_before,
}

-- An entry of the result: it is kept under its own sender, which is `v`'s, and describes a layer of
-- `v` that is not above the ideal one.
pub record IsLayerOf (e : ℕ × AllocatedVideo) (v : AllocatableVideo) : Type 0 where
  pub key : e.0 ≡ v.sender_demux_id
  pub sender : e.1.sender_demux_id ≡ v.sender_demux_id
  pub rate : e.1.rate ≡ (layer_at v e.1.layer_index).incoming_rate
  pub height : e.1.height ≡ (layer_at v e.1.layer_index).incoming_height
  pub ideal : (i : ℕ) × (ideal_video_layer_index v ≡ some i) × (e.1.layer_index ≤ i)

cheaper_layer-le :
    (rounds possible ideal : ℕ) (v : AllocatableVideo) (c : ℕ)
    → c ≤ ideal
    → cheaper_layer rounds possible ideal v c ≤ ideal
unfolding cheaper_layer
cheaper_layer-le zero possible ideal v c h = h
cheaper_layer-le (suc r) possible ideal v c h =
    cheaper_layer-le r (possible + 1) ideal v _ (ground arith)

candidate_layer-ideal :
    (j : ℕ) (v : AllocatableVideo) (c : ℕ)
    → candidate_layer j v ≡ some c
    → (i : ℕ) × (ideal_video_layer_index v ≡ some i) × (c ≤ i)
unfolding candidate_layer
candidate_layer-ideal j v c e = elim (Option-cases (ideal_video_layer_index v)) [
  | inl n ↦ ground arith
  | inr (i, h) ↦ (i, h, ground (arith, cheaper_layer-le 2 (j + 1) i v j))
]

abbrev AllChosen : List AllocatableVideo → Allocation → Type 0
AllChosen videos a = All (λ e. Any (IsLayerOf e) videos) a.by_sender

module _ (limits : Limits) (videos : List AllocatableVideo) where
  try_layer-AllChosen :
      (v : AllocatableVideo) (c : ℕ) (a : Allocation)
      → ((e : ℕ × AllocatedVideo) → IsLayerOf e v → Any (IsLayerOf e) videos)
      → ((i : ℕ) × (ideal_video_layer_index v ≡ some i) × (c ≤ i))
      → AllChosen videos a
      → AllChosen videos (try_layer limits v c a)
  unfolding try_layer
  try_layer-AllChosen v c a emb h all = elim (Bool-cases (ltb allocatable increased)) [
    | inl big ↦ rw big all
    | inr fits ↦ rw fits (
        All-insert (λ e. Any (IsLayerOf e) videos) v.sender_demux_id entry a.by_sender
          (emb (v.sender_demux_id, entry)
            (record { key = refl; sender = refl; rate = refl; height = refl; ideal = h }))
          all)
  ]
    where
      allocatable : ℕ
      allocatable =
          if opt_eq (some c) v.allocated_layer_index then limits.existing else limits.different

      increased : ℕ
      increased =
          a.allocated_rate + ((layer_at v c).incoming_rate - rate_of v.sender_demux_id a.by_sender)

      entry : AllocatedVideo
      entry = record {
        sender_demux_id = v.sender_demux_id;
        layer_index = c;
        rate = (layer_at v c).incoming_rate;
        height = (layer_at v c).incoming_height;
      }

  allocate_video-AllChosen :
      (j : ℕ) (v : AllocatableVideo) (a : Allocation)
      → ((e : ℕ × AllocatedVideo) → IsLayerOf e v → Any (IsLayerOf e) videos)
      → AllChosen videos a
      → AllChosen videos (allocate_video limits j v a)
  unfolding allocate_video
  allocate_video-AllChosen j v a emb all = elim (Option-cases (candidate_layer j v)) [
    | inl skipped ↦ rw (skipped, allocate_video) all
    | inr (c, chosen) ↦
        rw (chosen, allocate_video)
          (try_layer-AllChosen v c a emb (candidate_layer-ideal j v c chosen) all)
  ]

  allocate_layer-AllChosen :
      (j : ℕ) (vs : List AllocatableVideo) (a : Allocation)
      → ((e : ℕ × AllocatedVideo) → Any (IsLayerOf e) vs → Any (IsLayerOf e) videos)
      → AllChosen videos a
      → AllChosen videos (allocate_layer limits j vs a)
  unfolding allocate_layer
  allocate_layer-AllChosen j [] a emb all = all
  allocate_layer-AllChosen j (v ∷ vs) a emb all =
      allocate_layer-AllChosen j vs (allocate_video limits j v a) (λ e h. emb e (inr h))
        (allocate_video-AllChosen j v a (λ e h. emb e (inl h)) all)

under_head {ℓ₁ ℓ₂ ℓ₃ ℓ₄} :
    {A : Type ℓ₁} {B : Type ℓ₂} {C : Type ℓ₃} {D : Type ℓ₄} → (B → C ⊎ D) → A ⊎ B → C ⊎ (A ⊎ D)
under_head f (inl a) = inr (inl a)
under_head f (inr b) = elim (f b) [ inl c ↦ inl c | inr d ↦ inr (inr d) ]

map_right {ℓ₁ ℓ₂ ℓ₃} : {A : Type ℓ₁} {B : Type ℓ₂} {C : Type ℓ₃} → (B → C) → A ⊎ B → A ⊎ C
map_right f (inl a) = inl a
map_right f (inr b) = inr (f b)

Any-insert_sorted :
    (P : AllocatableVideo → Type 0) (v : AllocatableVideo) (ws : List AllocatableVideo)
    → Any P (insert_sorted v ws)
    → Any P (v ∷ ws)
unfolding insert_sorted
Any-insert_sorted P v [] h = h
Any-insert_sorted P v (w ∷ ws) h = elim (Bool-cases (goes_before v w)) [
  | inl first ↦ rw (first, insert_sorted) at h
  | inr later ↦ under_head (Any-insert_sorted P v ws) (rw (later, insert_sorted) at h)
]

Any-sort_videos :
    (P : AllocatableVideo → Type 0) (vs : List AllocatableVideo) → Any P (sort_videos vs) → Any P vs
unfolding sort_videos
Any-sort_videos P [] h = h
Any-sort_videos P (v ∷ vs) h =
    map_right (Any-sort_videos P vs) (Any-insert_sorted P v (sort_videos vs) h)

-- Every entry of the result is about one of the videos: it is kept under that video's sender, and
-- it holds the rate and the height of a layer of that video which is not above its ideal layer (so a
-- height was requested of it).
pub allocate_send_rate-IsLayerOf :
    (scale : ℕ → ℕ) (target min_target ideal drain : ℕ) (videos : List AllocatableVideo)
    → All
        (λ e. Any (IsLayerOf e) videos)
        (allocate_send_rate scale target min_target ideal drain videos).by_sender
unfolding allocate_send_rate
allocate_send_rate-IsLayerOf scale target min_target ideal drain videos =
    let emb = λ (e : ℕ × AllocatedVideo). Any-sort_videos (IsLayerOf e) videos in
    allocate_layer-AllChosen _ videos 2 (sort_videos videos) _ emb (
      allocate_layer-AllChosen _ videos 1 (sort_videos videos) _ emb
        (allocate_layer-AllChosen _ videos 0 (sort_videos videos) _ emb tt))

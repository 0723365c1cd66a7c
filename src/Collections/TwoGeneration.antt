-- ===== src/Collections/TwoGeneration.antt =====
-- `TwoGenerationCache` of common/src/collections/two_generation_cache.rs. A `HashMap` is an
-- association list whose keys are compared by `same`; instants are nanoseconds.
pub mod Kept
use signal_calling_service.Prelude.{
  ℕ, ◌+◌, Bool, true, false, not, Option, none, some, is_some, List, [], ◌∷◌, ◌++◌, map, leb, keep,
  if◌then◌else◌,
}

pub record TwoGenerationCache {ℓ κ} (K : Type ℓ) (V : Type κ) : Type (ℓ ⊔ κ) where
  pub generation_lifetime : ℕ
  pub generation0 : List (K × V)
  pub generation1 : List (K × V)
  pub generation1_expires : ℕ

abbrev pub or_else {ℓ} : {A : Type ℓ} → Option A → Option A → Option A
or_else none b = b
or_else (some a) b = some a

module _ {ℓ κ} {K : Type ℓ} {V : Type κ} where
  abbrev pub new_cache : ℕ → ℕ → TwoGenerationCache K V
  new_cache generation_lifetime now = record {
    generation_lifetime = generation_lifetime;
    generation0 = [];
    generation1 = [];
    generation1_expires = now + generation_lifetime;
  }

  -- The generation that is thrown away, if any.
  unfoldable pub swap_generations_if_its_been_too_long :
      ℕ → TwoGenerationCache K V → Option (List (K × V)) × TwoGenerationCache K V
  swap_generations_if_its_been_too_long now c =
      if leb c.generation1_expires now
      then (
        some c.generation1,
        record c {
          generation0 = [];
          generation1 = c.generation0;
          generation1_expires = now + c.generation_lifetime;
        },
      )
      else (none, c)

  abbrev pub iter : TwoGenerationCache K V → List (K × V)
  iter c = c.generation0 ++ c.generation1

module _ {ℓ κ} {K : Type ℓ} {V : Type κ} (same : K → K → Bool) where
  abbrev pub map_get : K → List (K × V) → Option V
  map_get k [] = none
  map_get k ((j, v) ∷ m) = if same j k then some v else map_get k m

  abbrev pub map_insert : K → V → List (K × V) → List (K × V)
  map_insert k v [] = (k, v) ∷ []
  map_insert k v ((j, w) ∷ m) = if same j k then (k, v) ∷ m else (j, w) ∷ map_insert k v m

  abbrev pub map_remove : K → List (K × V) → List (K × V)
  map_remove k [] = []
  map_remove k ((j, w) ∷ m) = if same j k then m else (j, w) ∷ map_remove k m

  abbrev pub map_update : (V → V) → K → List (K × V) → List (K × V)
  map_update f k [] = []
  map_update f k ((j, w) ∷ m) = if same j k then (j, f w) ∷ m else (j, w) ∷ map_update f k m

  abbrev pub insert_without_removing_old : K → V → TwoGenerationCache K V → TwoGenerationCache K V
  insert_without_removing_old k v c = record c { generation0 = map_insert k v c.generation0 }

  unfoldable pub insert : K → V → ℕ → TwoGenerationCache K V → TwoGenerationCache K V
  insert k v now c = insert_without_removing_old k v (swap_generations_if_its_been_too_long now c).1

  unfoldable pub get : K → TwoGenerationCache K V → Option V
  get k c = or_else (map_get k c.generation0) (map_get k c.generation1)

  -- A write through `get_mut`.
  unfoldable pub get_mut : (V → V) → K → TwoGenerationCache K V → TwoGenerationCache K V
  get_mut f k c =
      if is_some (map_get k c.generation0)
      then record c { generation0 = map_update f k c.generation0 }
      else record c { generation1 = map_update f k c.generation1 }

  unfoldable pub remove : K → TwoGenerationCache K V → Option V × TwoGenerationCache K V
  remove k c = (
    or_else (map_get k c.generation0) (map_get k c.generation1),
    record c { generation0 = map_remove k c.generation0; generation1 = map_remove k c.generation1 },
  )

  -- The keys that are thrown away and not in the older generation.
  abbrev pub lost_keys : Option (List (K × V)) → List (K × V) → List K
  lost_keys none m = []
  lost_keys (some removed) m = keep (λ k. not (is_some (map_get k m))) (map (λ e. e.0) removed)

  unfoldable pub remove_old : ℕ → TwoGenerationCache K V → List K × TwoGenerationCache K V
  remove_old now c =
      let r = swap_generations_if_its_been_too_long now c in (lost_keys r.0 r.1.generation1, r.1)

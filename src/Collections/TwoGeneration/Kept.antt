-- ===== src/Collections/TwoGeneration/Kept.antt =====
-- How long a `TwoGenerationCache` keeps a value.
use signal_calling_service.Prelude.{
  ℕ, ◌+◌, ◌<◌, ◌≤◌, Bool, true, false, none, some, List, [], ◌∷◌, ◌≡◌, ◌⊎◌, ◌↔◌, inl, inr, refl, ap,
  ◌∙◌, arith, leb, Bool-cases, if◌then◌else◌, All,
}
use signal_calling_service.Collections.TwoGeneration.{
  TwoGenerationCache, swap_generations_if_its_been_too_long, map_get, map_insert, insert, get,
}

pub record Insertion {ℓ κ} (K : Type ℓ) (V : Type κ) : Type (ℓ ⊔ κ) where
  pub key : K
  pub value : V
  pub now : ℕ

module _ {ℓ κ} {K : Type ℓ} {V : Type κ} (same : K → K → Bool)
    (test : (a b : K) → (same a b ≡ true) ↔ (a ≡ b)) where
  unfoldable pub insert_all : List (Insertion K V) → TwoGenerationCache K V → TwoGenerationCache K V
  insert_all [] c = c
  insert_all (i ∷ is) c = insert_all is (insert same i.key i.value i.now c)

  -- An insertion of another key, in a span of time.
  abbrev pub IsOther : K → ℕ → ℕ → Insertion K V → Type 0
  IsOther k from to i = (same i.key k ≡ false) × (from ≤ i.now) × (i.now < to)

  map_get-insert :
      (k : K) (v : V) (m : List (K × V)) → map_get same k (map_insert same k v m) ≡ some v
  map_get-insert k v [] = rw (test k k).1 refl
  map_get-insert k v ((j, w) ∷ m) = elim (Bool-cases (same j k)) [
    | inl hit ↦ rw hit (rw ((test k k).1 refl))
    | inr miss ↦ rw (miss, miss) (map_get-insert k v m)
  ]

  map_get-insert_other :
      (k j : K) (w : V) (m : List (K × V))
      → same j k ≡ false
      → map_get same k (map_insert same j w m) ≡ map_get same k m
  map_get-insert_other k j w [] other = rw other
  map_get-insert_other k j w ((i, u) ∷ m) other = elim (Bool-cases (same i j)) [
    | inl hit ↦ rw hit (rw (other, ap (λ x. same x k) ((test i j).0 hit), other))
    | inr miss ↦
        rw miss (ap (λ o. if same i k then some u else o) (map_get-insert_other k j w m other))
  ]

  -- The value is in the newer generation, or in the older one until the expiry.
  Kept : K → V → ℕ → TwoGenerationCache K V → Type κ
  Kept k v to c =
      (map_get same k c.generation0 ≡ some v)
      ⊎ ((map_get same k c.generation0 ≡ none)
          × (map_get same k c.generation1 ≡ some v)
          × (to ≤ c.generation1_expires))

  insert-Kept :
      (k : K) (v : V) (i : Insertion K V) (from to : ℕ) (c : TwoGenerationCache K V)
      → to ≤ from + c.generation_lifetime
      → IsOther k from to i
      → Kept k v to c
      → Kept k v to (insert same i.key i.value i.now c)
  unfolding insert swap_generations_if_its_been_too_long Kept
  insert-Kept k v i from to c span (other, late, early) (inl newer) =
      elim (Bool-cases (leb c.generation1_expires i.now)) [
        | inl swap ↦ rw swap (inr (rw other, newer, omega (arith, span, late)))
        | inr stay ↦
            rw stay (inl (map_get-insert_other k i.key i.value c.generation0 other ∙ newer))
      ]
  insert-Kept k v i from to c span (other, late, early) (inr (gone, older, expiry)) =
      elim (Bool-cases (leb c.generation1_expires i.now)) [
        | inl swap ↦ ground (arith, swap, expiry, early)
        | inr stay ↦
            rw stay
              (inr (map_get-insert_other k i.key i.value c.generation0 other ∙ gone, older, expiry))
      ]

  insert-lifetime :
      (k : K) (v : V) (now : ℕ) (c : TwoGenerationCache K V)
      → (insert same k v now c).generation_lifetime ≡ c.generation_lifetime
  unfolding insert swap_generations_if_its_been_too_long
  insert-lifetime k v now c = elim (Bool-cases (leb c.generation1_expires now)) [
    | inl swap ↦ rw swap
    | inr stay ↦ rw stay
  ]

  insert_all-Kept :
      (k : K) (v : V) (from to : ℕ) (is : List (Insertion K V)) (c : TwoGenerationCache K V)
      → to ≤ from + c.generation_lifetime
      → All (IsOther k from to) is
      → Kept k v to c
      → Kept k v to (insert_all is c)
  unfolding insert_all
  insert_all-Kept k v from to [] c span others h = h
  insert_all-Kept k v from to (i ∷ is) c span others h =
      insert_all-Kept k v from to is (insert same i.key i.value i.now c)
        (omega (arith, span, insert-lifetime i.key i.value i.now c)) others.1
        (insert-Kept k v i from to c span others.0 h)

  get-Kept :
      (k : K) (v : V) (to : ℕ) (c : TwoGenerationCache K V) → Kept k v to c → get same k c ≡ some v
  unfolding get Kept
  get-Kept k v to c (inl newer) = rw newer
  get-Kept k v to c (inr (gone, older, expiry)) = rw gone older

  -- A value stays for a whole lifetime: whatever is inserted under other keys after it and before
  -- the lifetime has passed, the value is still found. `same` is a test of equality.
  pub get-insert_all :
      (k : K) (v : V) (now : ℕ) (is : List (Insertion K V)) (c : TwoGenerationCache K V)
      → All (IsOther k now (now + c.generation_lifetime)) is
      → get same k (insert_all is (insert same k v now c)) ≡ some v
  unfolding insert Kept
  get-insert_all k v now is c others = get-Kept k v (now + c.generation_lifetime) _ (
      insert_all-Kept k v now (now + c.generation_lifetime) is (insert same k v now c)
        (omega (arith, insert-lifetime k v now c)) others
        (inl (map_get-insert k v (swap_generations_if_its_been_too_long now c).1.generation0)))

-- ===== src/Collections/KeySorted.antt =====
-- `KeySortedCache` of common/src/collections/key_sorted_cache.rs over number keys: a `BTreeMap` is a
-- list of entries in ascending order of their keys.
use signal_calling_service.Prelude.{
  ℕ, suc, ◌<◌, ◌≤◌, Bool, true, false, List, [], ◌∷◌, ◌≡◌, ◌≢◌, inl, inr, arith, ltb, ◌==◌,
  if◌then◌else◌, length, All, Bool-cases, All-imp, ltb→lt, ◌-◌,
}

pub record KeySortedCache {ℓ} (V : Type ℓ) : Type ℓ where
  pub limit : ℕ
  pub value_by_key : List (ℕ × V)

module _ {ℓ} {V : Type ℓ} where
  abbrev pub new_cache : ℕ → KeySortedCache V
  new_cache limit = record { limit = limit; value_by_key = [] }

  -- `BTreeMap::insert`
  abbrev pub btree_insert : ℕ → V → List (ℕ × V) → List (ℕ × V)
  btree_insert k v [] = (k, v) ∷ []
  btree_insert k v ((j, w) ∷ m) =
      if ltb k j
      then (k, v) ∷ (j, w) ∷ m
      else if k == j
      then (k, v) ∷ m
      else (j, w) ∷ btree_insert k v m

  abbrev pub btree_remove : ℕ → List (ℕ × V) → List (ℕ × V)
  btree_remove k [] = []
  btree_remove k ((j, w) ∷ m) = if k == j then m else (j, w) ∷ btree_remove k m

  abbrev pub pop_first : List (ℕ × V) → List (ℕ × V)
  pop_first [] = []
  pop_first (e ∷ m) = m

  unfoldable pub insert : ℕ → V → KeySortedCache V → KeySortedCache V
  insert k v c =
      let m = btree_insert k v c.value_by_key in
      record c { value_by_key = if ltb c.limit (length m) then pop_first m else m }

  unfoldable pub remove : ℕ → KeySortedCache V → KeySortedCache V
  remove k c = record c { value_by_key = btree_remove k c.value_by_key }

  -- Every key is above the keys before it.
  abbrev pub IsSorted : List (ℕ × V) → Type 0
  IsSorted [] = Unit
  IsSorted ((k, v) ∷ m) = All (λ e. k < e.0) m × IsSorted m

  abbrev pub IsValid : KeySortedCache V → Type 0
  IsValid c = IsSorted c.value_by_key × (length c.value_by_key ≤ c.limit)

  All-btree_insert {κ} :
      (P : ℕ × V → Type κ) (k : ℕ) (v : V) (m : List (ℕ × V))
      → P (k, v)
      → All P m
      → All P (btree_insert k v m)
  All-btree_insert P k v [] p h = (p, tt)
  All-btree_insert P k v ((j, w) ∷ m) p h = elim (Bool-cases (ltb k j)) [
    | inl before ↦ rw before (p, h)
    | inr after ↦ elim (Bool-cases (k == j)) [
      | inl hit ↦ rw (after, hit) (p, h.1)
      | inr miss ↦ rw (after, miss) (h.0, All-btree_insert P k v m p h.1)
    ]
  ]

  All-btree_remove {κ} :
      (P : ℕ × V → Type κ) (k : ℕ) (m : List (ℕ × V)) → All P m → All P (btree_remove k m)
  All-btree_remove P k [] h = tt
  All-btree_remove P k ((j, w) ∷ m) h = elim (Bool-cases (k == j)) [
    | inl hit ↦ rw hit h.1
    | inr miss ↦ rw miss (h.0, All-btree_remove P k m h.1)
  ]

  All-pop_first {κ} : (P : ℕ × V → Type κ) (m : List (ℕ × V)) → All P m → All P (pop_first m)
  All-pop_first P [] h = tt
  All-pop_first P (e ∷ m) h = h.1

  if_both {κ} :
      (P : List (ℕ × V) → Type κ) (b : Bool) (m n : List (ℕ × V))
      → P m
      → P n
      → P (if b then m else n)
  if_both P true m n hm hn = hm
  if_both P false m n hm hn = hn

  -- What holds of a new entry and of all entries holds of all entries after the insertion.
  pub All-insert {κ} :
      (P : ℕ × V → Type κ) (k : ℕ) (v : V) (c : KeySortedCache V)
      → P (k, v)
      → All P c.value_by_key
      → All P (insert k v c).value_by_key
  unfolding insert
  All-insert P k v c p h =
      let m = btree_insert k v c.value_by_key in
      let hm : All P m = All-btree_insert P k v c.value_by_key p h in
      if_both (All P) (ltb c.limit (length m)) _ m (All-pop_first P m hm) hm

  pub All-remove {κ} :
      (P : ℕ × V → Type κ) (k : ℕ) (c : KeySortedCache V)
      → All P c.value_by_key
      → All P (remove k c).value_by_key
  unfolding remove
  All-remove P k c h = All-btree_remove P k c.value_by_key h

  above : (i j : ℕ) (m : List (ℕ × V)) → i < j → All (λ e. j < e.0) m → All (λ e. i < e.0) m
  above i j m lt h = All-imp (λ e b. omega (arith, lt, b)) m h

  IsSorted-btree_insert :
      (k : ℕ) (v : V) (m : List (ℕ × V)) → IsSorted m → IsSorted (btree_insert k v m)
  IsSorted-btree_insert k v [] h = (tt, tt)
  IsSorted-btree_insert k v ((j, w) ∷ m) h = elim (Bool-cases (ltb k j)) [
    | inl before ↦ rw before ((ltb→lt k j before, above k j m (ltb→lt k j before) h.0), h)
    | inr after ↦ elim (Bool-cases (k == j)) [
      | inl hit ↦ rw (after, hit) (All-imp (λ e b. ground (arith, hit, b)) m h.0, h.1)
      | inr miss ↦
          rw (after, miss)
            (
              All-btree_insert (λ e. j < e.0) k v m (ground (arith, after, miss)) h.0,
              IsSorted-btree_insert k v m h.1,
            )
    ]
  ]

  IsSorted-btree_remove : (k : ℕ) (m : List (ℕ × V)) → IsSorted m → IsSorted (btree_remove k m)
  IsSorted-btree_remove k [] h = tt
  IsSorted-btree_remove k ((j, w) ∷ m) h = elim (Bool-cases (k == j)) [
    | inl hit ↦ rw hit h.1
    | inr miss ↦ rw miss (All-btree_remove (λ e. j < e.0) k m h.0, IsSorted-btree_remove k m h.1)
  ]

  IsSorted-pop_first : (m : List (ℕ × V)) → IsSorted m → IsSorted (pop_first m)
  IsSorted-pop_first [] h = tt
  IsSorted-pop_first (e ∷ m) h = h.1

  length-btree_insert :
      (k : ℕ) (v : V) (m : List (ℕ × V)) → length (btree_insert k v m) ≤ suc (length m)
  length-btree_insert k v [] = omega arith
  length-btree_insert k v (e ∷ m) = ground (arith, length-btree_insert k v m)

  length-btree_remove : (k : ℕ) (m : List (ℕ × V)) → length (btree_remove k m) ≤ length m
  length-btree_remove k [] = omega arith
  length-btree_remove k (e ∷ m) = ground (arith, length-btree_remove k m)

  length-pop_first : (m : List (ℕ × V)) → length (pop_first m) ≡ length m - 1
  length-pop_first [] = omega arith
  length-pop_first (e ∷ m) = omega arith

  pub insert-IsValid : (k : ℕ) (v : V) (c : KeySortedCache V) → IsValid c → IsValid (insert k v c)
  unfolding insert
  insert-IsValid k v c h =
      let m = btree_insert k v c.value_by_key in
      let sorted : IsSorted m = IsSorted-btree_insert k v c.value_by_key h.0 in
      elim (Bool-cases (ltb c.limit (length m))) [
        | inl full ↦ rw full (
          IsSorted-pop_first m sorted,
          omega (arith, length-pop_first m, length-btree_insert k v c.value_by_key, h.1),
        )
        | inr fits ↦ rw fits (sorted, ground (arith, fits))
      ]

  pub remove-IsValid : (k : ℕ) (c : KeySortedCache V) → IsValid c → IsValid (remove k c)
  unfolding remove
  remove-IsValid k c h = (
    IsSorted-btree_remove k c.value_by_key h.0,
    omega (arith, length-btree_remove k c.value_by_key, h.1),
  )

  btree_remove-absent :
      (k : ℕ) (m : List (ℕ × V)) → IsSorted m → All (λ e. k ≢ e.0) (btree_remove k m)
  btree_remove-absent k [] h = tt
  btree_remove-absent k ((j, w) ∷ m) h = elim (Bool-cases (k == j)) [
    | inl hit ↦ rw hit (All-imp (λ e b. ground (arith, hit, b)) m h.0)
    | inr miss ↦ rw miss (ground (arith, miss), btree_remove-absent k m h.1)
  ]

  pub remove-absent :
      (k : ℕ) (c : KeySortedCache V) → IsValid c → All (λ e. k ≢ e.0) (remove k c).value_by_key
  unfolding remove
  remove-absent k c h = btree_remove-absent k c.value_by_key h.0

-- ===== src/Collections/Ring.antt =====
-- `RingBuffer` of common/src/collections/ring_buffer.rs: the oldest value is dropped iff it is full.
pub mod Last
use signal_calling_service.Prelude.{
  ℕ, suc, ◌≤◌, Option, none, some, List, [], ◌∷◌, ◌++◌, Bool, true, false, ◌==◌, ltb, if◌then◌else◌,
  length,
}

pub record RingBuffer {ℓ} (A : Type ℓ) : Type ℓ where
  pub limit : ℕ
  pub values : List A

module _ {ℓ} {A : Type ℓ} where
  abbrev pub new_ring : ℕ → RingBuffer A
  new_ring limit = record { limit = limit; values = [] }

  abbrev pub pop_front : ℕ → List A → Option A × List A
  pop_front limit [] = (none, [])
  pop_front limit (x ∷ xs) = if ltb limit (length (x ∷ xs)) then (some x, xs) else (none, x ∷ xs)

  -- The value that was dropped, if any.
  unfoldable pub push : A → RingBuffer A → Option A × RingBuffer A
  push x r =
      let popped = pop_front r.limit (r.values ++ (x ∷ [])) in
      (popped.0, record r { values = popped.1 })

  abbrev pub len : RingBuffer A → ℕ
  len r = length r.values

  abbrev pub is_full : RingBuffer A → Bool
  is_full r = len r == r.limit

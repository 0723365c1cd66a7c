-- ===== src/Collections/Ring/Last.antt =====
-- What a `RingBuffer` holds.
use signal_calling_service.Prelude.{
  ℕ, suc, ◌+◌, ◌-◌, ◌≤◌, List, [], ◌∷◌, ◌++◌, ltb, length, drop, ◌≡◌, refl, sym, ◌∙◌, arith, inl,
  inr, Bool-cases, length-append, ap,
}
use mathlib.Core.List.{append_assoc, append-nil}
use signal_calling_service.Collections.Ring.{RingBuffer, new_ring, pop_front, push}

none_over : (m n : ℕ) → m ≤ n → m - n ≡ 0
none_over m n h = omega (arith, h)

one_more : (limit m n k : ℕ) → k ≡ m + n → limit ≤ m → suc k - limit ≡ suc (k - limit)
one_more limit m n k e h = omega (arith, e, h)

module _ {ℓ} {A : Type ℓ} where
  unfoldable pub push_all : List A → RingBuffer A → RingBuffer A
  push_all [] r = r
  push_all (x ∷ xs) r = push_all xs (push x r).1

  -- The last values, as many as the limit.
  abbrev pub last : ℕ → List A → List A
  last limit xs = drop (length xs - limit) xs

  pop_front-length :
      (limit : ℕ) (xs : List A) → length xs ≤ suc limit → length (pop_front limit xs).1 ≤ limit
  pop_front-length limit [] h = omega arith
  pop_front-length limit (x ∷ xs) h = ground arith

  last-fits : (limit : ℕ) (xs : List A) → length xs ≤ limit → last limit xs ≡ xs
  last-fits limit xs h = ap (λ n. drop n xs) (none_over (length xs) limit h)

  pop_front-last :
      (limit : ℕ) (xs ys : List A)
      → length xs ≤ suc limit
      → last limit ((pop_front limit xs).1 ++ ys) ≡ last limit (xs ++ ys)
  pop_front-last limit [] ys h = refl
  pop_front-last limit (x ∷ xs) ys h = elim (Bool-cases (ltb limit (length (x ∷ xs)))) [
    | inl full ↦ rw full (
        sym (
          ap (λ n. drop n (x ∷ (xs ++ ys)))
            (one_more limit (length xs) (length ys) (length (xs ++ ys)) (length-append xs ys)
              (ground (arith, full)))))
    | inr fits ↦ rw fits
  ]

  push_all-last :
      (xs : List A) (r : RingBuffer A)
      → length r.values ≤ r.limit
      → (push_all xs r).values ≡ last r.limit (r.values ++ xs)
  unfolding push_all push
  push_all-last [] r h = rw (append-nil) (sym (last-fits r.limit r.values h))
  push_all-last (x ∷ xs) r h =
      let vs = r.values ++ (x ∷ []) in
      let short : length vs ≤ suc r.limit = omega (arith, h, length-append r.values (x ∷ [])) in
      push_all-last xs (record r { values = (pop_front r.limit vs).1 })
        (pop_front-length r.limit vs short)
      ∙ pop_front-last r.limit vs xs short
      ∙ ap (last r.limit) (append_assoc r.values (x ∷ []) xs)

  -- A ring buffer holds the last values that were pushed, in order, as many as its limit, and all of
  -- them when they are fewer.
  pub push_all-new_ring :
      (limit : ℕ) (xs : List A) → (push_all xs (new_ring limit)).values ≡ last limit xs
  push_all-new_ring limit xs = push_all-last xs (new_ring limit) (omega arith)

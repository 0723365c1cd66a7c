-- ===== src/Bytes/Slices.antt =====
-- Slices of byte strings: `&packet[a..b]`, `copy_from_slice` into one, and their laws.
use signal_calling_service.Prelude.{
  ℕ, zero, suc, ◌+◌, ◌-◌, ◌≤◌, ◌≡◌, refl, ap, ap₂, List, [], ◌∷◌, ◌++◌, ◌∙◌, sym, length,
  length-append, take, drop, arith,
}

module _ {ℓ} {A : Type ℓ} where
  -- `&s[a..b]`
  abbrev pub slice : ℕ → ℕ → List A → List A
  slice a b s = take (b - a) (drop a s)

  -- `s[i..][..v.len()].copy_from_slice(v)`
  abbrev pub overwrite : ℕ → List A → List A → List A
  overwrite i v s = take i s ++ (v ++ drop (i + length v) s)

  -- `vec![a; n]`
  abbrev pub repeat : ℕ → A → List A
  repeat zero a = []
  repeat (suc n) a = a ∷ repeat n a

  pub length-repeat : (n : ℕ) (a : A) → length (repeat n a) ≡ n
  length-repeat zero a = refl
  length-repeat (suc n) a = ap suc (length-repeat n a)

  pub drop-append : (n : ℕ) (s t : List A) → length s ≡ n → drop n (s ++ t) ≡ t
  drop-append zero [] t h = refl
  drop-append (suc n) (x ∷ s) t h = drop-append n s t (omega arith)
  drop-append n s t h = absurd (omega arith)

  pub take-append : (n : ℕ) (s t : List A) → length s ≡ n → take n (s ++ t) ≡ s
  take-append zero [] t h = refl
  take-append (suc n) (x ∷ s) t h = ap (◌∷◌ x) (take-append n s t (omega arith))
  take-append n s t h = absurd (omega arith)

  pub length-take : (n : ℕ) (s : List A) → n ≤ length s → length (take n s) ≡ n
  length-take zero s h = refl
  length-take (suc n) [] h = absurd (omega arith)
  length-take (suc n) (x ∷ s) h = ap suc (length-take n s (omega arith))

  pub length-drop : (n : ℕ) (s : List A) → length (drop n s) ≡ length s - n
  length-drop zero s = omega arith
  length-drop (suc n) [] = omega arith
  length-drop (suc n) (x ∷ s) = length-drop n s ∙ omega arith

  pub append_assoc : (s t u : List A) → (s ++ t) ++ u ≡ s ++ (t ++ u)
  append_assoc [] t u = refl
  append_assoc (x ∷ s) t u = ap (◌∷◌ x) (append_assoc s t u)

  pub append_nil : (s : List A) → s ++ [] ≡ s
  append_nil [] = refl
  append_nil (x ∷ s) = ap (◌∷◌ x) (append_nil s)

  -- Writing over the middle part of a string that has three.
  pub overwrite-append :
      (n : ℕ) (s t u v : List A)
      → length s ≡ n
      → length t ≡ length v
      → overwrite n v (s ++ (t ++ u)) ≡ s ++ (v ++ u)
  overwrite-append n s t u v h k =
      ap₂ (λ a b. a ++ (v ++ b)) (take-append n s (t ++ u) h)
        (ap (drop (n + length v)) (sym (append_assoc s t u))
          ∙ drop-append (n + length v) (s ++ t) u (length-append s t ∙ omega arith))

-- ===== src/Rtcp/Nacks/Bits.antt =====
-- The bits of a mask in which they are set in ascending order, for backend/src/rtp/nack.rs.
use signal_calling_service.Prelude.{
  ℕ, zero, suc, ◌+◌, ◌*◌, ◌/◌, ◌%◌, ◌^◌, ◌<◌, ◌≤◌, ◌≡◌, refl, ap, ap₂, inl, inr, ltb, Bool-cases,
  sym, subst, ◌∙◌, Bool, true, false, ◌==◌, if◌then◌else◌, List, [], ◌∷◌, ◌++◌, keep, arith,
}
use native.Mathlib.Nat.{pow-succ', pow-le-pow_right, div-div-eq-div-mul}
use signal_calling_service.Rtcp.Nacks.{set_ls_bit}
use signal_calling_service.Rtcp.Compound.{ls_bit, indices}

abbrev pub range : ℕ → ℕ → List ℕ
range a zero = []
range a (suc n) = a ∷ range (suc a) n

keep-none : (p : ℕ → Bool) (a n : ℕ) → ((j : ℕ) → a ≤ j → p j ≡ false) → keep p (range a n) ≡ []
keep-none p a zero h = refl
keep-none p a (suc n) h = rw (h a (omega arith)) (keep-none p (suc a) n λ j le. h j (omega arith))

ls_bit-suc : (m j : ℕ) → ls_bit m (suc j) ≡ ls_bit (m / 2) j
ls_bit-suc m j =
    ap (λ q. q % 2 == 1) (ap (λ k. m / k) (pow-succ' 2 j) ∙ sym (div-div-eq-div-mul m 2 (2 ^ j)))

even : (m k : ℕ) → (m + 2 * k) / 1 % 2 ≡ m / 1 % 2
even m k = omega arith

half-lt : (m k : ℕ) → m < 2 * k → m / 2 < k
half-lt m k h = omega arith

halved : (m k : ℕ) → (m + 2 * k) / 2 ≡ m / 2 + k
halved m k = omega arith

-- A bit above the number is not set.
ls_bit-above : (j m : ℕ) → m < 2 ^ j → ls_bit m j ≡ false
ls_bit-above zero m h = ap (λ n. n / 1 % 2 == 1) {x = m} {y = 0} (omega arith)
ls_bit-above (suc j) m h =
    ls_bit-suc m j
    ∙ ls_bit-above j (m / 2) (half-lt m (2 ^ j) (subst (λ k. m < k) (pow-succ' 2 j) h))

half_added : (i m : ℕ) → (m + 2 ^ suc i) / 2 ≡ m / 2 + 2 ^ i
half_added i m = ap (λ k. (m + k) / 2) (pow-succ' 2 i) ∙ halved m (2 ^ i)

-- Adding a power of two leaves the bits below it.
ls_bit-below : (j i m : ℕ) → j < i → ls_bit (m + 2 ^ i) j ≡ ls_bit m j
ls_bit-below j zero m h = absurd (omega arith)
ls_bit-below zero (suc i) m h =
    ap (λ k. k == 1) (ap (λ k. (m + k) / 1 % 2) (pow-succ' 2 i) ∙ even m (2 ^ i))
ls_bit-below (suc j) (suc i) m h =
    ls_bit-suc (m + 2 ^ suc i) j
    ∙ ap (λ k. ls_bit k j) (half_added i m)
    ∙ ls_bit-below j i (m / 2) (omega arith)
    ∙ sym (ls_bit-suc m j)

ls_bit-added : (i m : ℕ) → m < 2 ^ i → ls_bit (m + 2 ^ i) i ≡ true
ls_bit-added zero m h = ap (λ n. (n + 1) / 1 % 2 == 1) {x = m} {y = 0} (omega arith)
ls_bit-added (suc i) m h =
    ls_bit-suc (m + 2 ^ suc i) i
    ∙ ap (λ k. ls_bit k i) (half_added i m)
    ∙ ls_bit-added i (m / 2) (half-lt m (2 ^ i) (subst (λ k. m < k) (pow-succ' 2 i) h))

pow-doubles : (m i : ℕ) → m < 2 ^ i → m + 2 ^ i < 2 ^ suc i
pow-doubles m i h = subst (λ k. m + 2 ^ i < k) (sym (pow-succ' 2 i)) (omega arith)

pub lt-pow : (m i j : ℕ) → m < 2 ^ i → i ≤ j → m < 2 ^ j
lt-pow m i j h le = let p : 2 ^ i ≤ 2 ^ j = pow-le-pow_right (omega arith) le in omega arith

-- One more place is kept at the end when every later place is dropped.
keep-one_more :
    (p q : ℕ → Bool) (i a n : ℕ)
    → a ≤ i
    → i < a + n
    → ((j : ℕ) → j < i → q j ≡ p j)
    → q i ≡ true
    → ((j : ℕ) → i ≤ j → p j ≡ false)
    → ((j : ℕ) → i < j → q j ≡ false)
    → keep q (range a n) ≡ keep p (range a n) ++ (i ∷ [])
keep-one_more p q i a zero le lt below at above_p above_q = absurd (omega arith)
keep-one_more p q i a (suc n) le lt below at above_p above_q = elim (Bool-cases (ltb a i)) [
  | inl l ↦ rw (below a (ground arith)) (elim (Bool-cases (p a)) [
    | inl t ↦ rw t (
        ap (λ r. a ∷ r)
          (keep-one_more p q i (suc a) n (ground arith) (omega arith) below at above_p above_q))
    | inr f ↦
        rw f (keep-one_more p q i (suc a) n (ground arith) (omega arith) below at above_p above_q)
  ])
  | inr g ↦
      let e : a ≡ i = ground arith in
      rw (ap q e ∙ at, ap p e ∙ above_p i (omega arith))
        (ap₂ (λ x r. x ∷ r) e (keep-none q (suc a) n λ j h. above_q j (omega arith))
          ∙ ap (λ r. r ++ (i ∷ [])) (sym (keep-none p (suc a) n λ j h. above_p j (omega arith))))
]

-- The places of the bits of a mask, in ascending order.
abbrev pub places : ℕ → List ℕ
places mask = keep (ls_bit mask) indices

pub places-set_ls_bit :
    (m i : ℕ) → m < 2 ^ i → i < 16 → places (set_ls_bit m i) ≡ places m ++ (i ∷ [])
places-set_ls_bit m i h l =
    ap places (ap (λ b. if b then m else m + 2 ^ i) (ls_bit-above i m h))
    ∙ keep-one_more (ls_bit m) (ls_bit (m + 2 ^ i)) i 0 16 (omega arith) (omega arith)
        (λ j le. ls_bit-below j i m le) (ls_bit-added i m h)
        (λ j le. ls_bit-above j m (lt-pow m i j h le))
        λ j lt. ls_bit-above j (m + 2 ^ i) (lt-pow (m + 2 ^ i) (suc i) j (pow-doubles m i h) lt)

pub set_ls_bit-< : (m i : ℕ) → m < 2 ^ i → set_ls_bit m i < 2 ^ suc i
set_ls_bit-< m i h =
    subst (λ b. (if b then m else m + 2 ^ i) < 2 ^ suc i) (sym (ls_bit-above i m h))
      (pow-doubles m i h)

-- ===== src/Ice/Walk.antt =====
-- The loop of `BindingRequest::parse` in backend/src/ice.rs on an attribute that has been written
-- by `write_stun_attribute`.
use signal_calling_service.Prelude.{
  ℕ, zero, suc, ◌+◌, ◌-◌, ◌<◌, ◌≤◌, ◌%◌, ◌≡◌, refl, sym, ap, ap₂, ◌∙◌, some, List, [], ◌∷◌, ◌++◌,
  length, length-append, take, drop, leb, ltb, ok, arith, Bool-cases, inl, inr,
}
use signal_calling_service.Bytes.{
  slice, parse_u16, round_up_to_multiple_of, append_assoc, drop-append, take-append, length-drop,
  parse_u16-be16,
}
use signal_calling_service.Ice.{
  Seen, ParseState, go, go_on, turn, turn_at, read_attribute, read_attributes, attr_header_len,
  attr_val_end, attr_len_at, attr_id_at, attr_range, range_len,
}
use signal_calling_service.Ice.Layout.{attr_header}

drop_nil {ℓ} : {A : Type ℓ} (n : ℕ) → drop {A = A} n [] ≡ []
drop_nil zero = refl
drop_nil (suc n) = refl

drop-drop {ℓ} : {A : Type ℓ} (m n : ℕ) (s : List A) → drop n (drop m s) ≡ drop (m + n) s
drop-drop zero n s = ap (λ k. drop k s) (omega arith)
drop-drop (suc m) n [] = drop_nil n ∙ sym (drop_nil (suc m + n))
drop-drop (suc m) n (x ∷ s) =
    drop-drop m n s ∙ ap (λ k. drop k (x ∷ s)) {x = suc (m + n)} (omega arith)

pub range_len-attr_range : (a l : ℕ) → range_len (attr_range a l) ≡ l
range_len-attr_range a l = omega arith

pub read_attributes-go :
    (fuel : ℕ) (packet : List ℕ) (a : ℕ) (s : Seen) {n : ℕ} {r : Seen}
    → turn packet a s ≡ go n r
    → read_attributes (suc fuel) packet a s ≡ read_attributes fuel packet n r
unfolding read_attributes
read_attributes-go fuel packet a s t = rw (t, read_attributes) refl

pub read_attributes-end :
    (fuel : ℕ) (packet : List ℕ) (a : ℕ) (s : Seen)
    → length packet ≤ a
    → read_attributes (suc fuel) packet a s ≡ some (ok s)
unfolding read_attributes turn
read_attributes-end fuel packet a s h =
    elim (Bool-cases (leb (a + attr_header_len) (length packet))) [
      | inl t ↦ absurd (ground arith)
      | inr f ↦ rw (f, read_attributes) refl
    ]

turn-turn_at :
    (packet : List ℕ) (a : ℕ) (seen : Seen)
    → a + attr_header_len ≤ length packet
    → turn packet a seen ≡ turn_at packet a (attr_id_at packet a) (attr_len_at packet a) seen
unfolding turn
turn-turn_at packet a seen h = elim (Bool-cases (leb (a + attr_header_len) (length packet))) [
  | inl t ↦ rw (t, turn) refl
  | inr f ↦ absurd (ground arith)
]

turn_at-fits :
    (packet : List ℕ) (a id len : ℕ) (seen : Seen)
    → attr_val_end a len ≤ length packet
    → turn_at packet a id len seen
      ≡ go_on
          (round_up_to_multiple_of 4 (attr_val_end a len))
          (read_attribute seen.parse_mode id len (attr_range a len) seen)
unfolding turn_at
turn_at-fits packet a id len seen h = elim (Bool-cases (ltb (length packet) (attr_val_end a len))) [
  | inl t ↦ absurd (ground arith)
  | inr f ↦ rw (f, turn_at) refl
]

-- The packet from `a` on is an attribute with this value and its padding, and the rest.
module _ (packet : List ℕ) (a id len : ℕ) (val pad rest : List ℕ)
    (at_a : drop a packet ≡ attr_header id (len) ++ (val ++ (pad ++ rest))) (small_id : id < 65536)
    (small : len < 65536) (padded : length pad ≡ round_up_to_multiple_of 4 (len) - len)
    (sized : length val ≡ len) (aligned : a % 4 ≡ 0) where
  pub fits : length packet ≡ a + 4 + len + length pad + length rest
  fits = omega (
    arith,
    sized,
    length-drop a packet,
    ap length at_a,
    length-append val (pad ++ rest),
    length-append pad rest,
  )

  header_at : slice a (a + attr_header_len) packet ≡ attr_header id (len)
  header_at =
      ap (take (a + 4 - a)) at_a ∙ take-append (a + 4 - a) (attr_header id (len)) _ (omega arith)

  id_at : attr_id_at packet a ≡ id
  id_at = ap (λ h. parse_u16 (slice 0 2 h)) header_at ∙ parse_u16-be16 id [] small_id

  len_at : attr_len_at packet a ≡ len
  len_at = ap (λ h. parse_u16 (slice 2 4 h)) header_at ∙ parse_u16-be16 (len) [] small

  abbrev written : List ℕ
  written = attr_header id (len) ++ (val ++ pad)

  regroup : attr_header id (len) ++ (val ++ (pad ++ rest)) ≡ written ++ rest
  regroup = ap (◌++◌ (attr_header id (len))) (sym (append_assoc val pad rest))

  next : round_up_to_multiple_of 4 (a + 4 + len) ≡ a + length written
  next = omega (arith, sized, length-append val pad)

  turn-attribute :
      (seen : Seen)
      → turn packet a seen
        ≡ go_on
            (round_up_to_multiple_of 4 (a + 4 + len))
            (read_attribute seen.parse_mode id (len) (attr_range a (len)) seen)
  turn-attribute seen =
      turn-turn_at packet a seen (omega (arith, fits))
      ∙ ap₂ (λ i l. turn_at packet a i l seen) id_at len_at
      ∙ turn_at-fits packet a id (len) seen (omega (arith, fits))

  pub attribute-go :
      (mode : ParseState) (seen : Seen) {n : ℕ} {r : Seen}
      → seen.parse_mode ≡ mode
      → round_up_to_multiple_of 4 (a + 4 + len) ≡ n
      → read_attribute mode id len (attr_range a len) seen ≡ ok r
      → turn packet a seen ≡ go n r
  attribute-go mode seen em en er =
      turn-attribute seen
      ∙ ap₂ go_on en (ap (λ m. read_attribute m id len (attr_range a len) seen) em ∙ er)

  pub next-attribute : drop (round_up_to_multiple_of 4 (a + 4 + len)) packet ≡ rest
  next-attribute =
      ap (λ n. drop n packet) next
      ∙ sym (drop-drop a (length written) packet)
      ∙ ap (drop (length written)) (at_a ∙ regroup)
      ∙ drop-append (length written) written rest refl

  pub next-aligned : round_up_to_multiple_of 4 (a + 4 + len) % 4 ≡ 0
  next-aligned = omega arith

  pub value-attribute : slice (a + 4) (a + 4 + len) packet ≡ val
  value-attribute =
      ap (take (a + 4 + len - (a + 4))) (sym (drop-drop a 4 packet) ∙ ap (drop 4) at_a)
      ∙ take-append _ val (pad ++ rest) (omega (arith, sized))

-- ===== src/Ice/Ends.antt =====
-- The loop of `BindingRequest::parse` in backend/src/ice.rs ends.
use signal_calling_service.Prelude.{
  ℕ, zero, suc, ◌+◌, ◌≤◌, ◌≡◌, refl, ap, ◌∙◌, ◌⊎◌, inl, inr, some, List, ◌-◌, length, leb, ltb,
  Bool-cases, Result, ok, err, arith, ◌==◌,
}
use signal_calling_service.Bytes.{slice, parse_u16, round_up_to_multiple_of}
use signal_calling_service.Ice.{
  Seen, ParseError, BindingRequest, Turn, stop, go, go_on, turn, turn_at, read_attribute,
  read_attributes, parse, after_loop, header_len, attr_header_len, nothing_seen, attr_val_end,
  attr_len_at, attr_id_at, attr_range,
}

pub Turn-cases :
    (t : Turn)
    → ((r : Result ParseError Seen) × (t ≡ stop r)) ⊎ ((n : ℕ) × (s : Seen) × (t ≡ go n s))
Turn-cases (stop r) = inl (r, refl)
Turn-cases (go n s) = inr (n, s, refl)

go_on-go :
    (next : ℕ) (r : Result ParseError Seen) {n : ℕ} {s : Seen}
    → go_on next r ≡ go n s
    → (n ≡ next) × (r ≡ ok s)
go_on-go next (ok s) h = ground arith
go_on-go next (err e) h = ground arith

turn_at-go :
    (packet : List ℕ) (attr_start attr_id attr_len : ℕ) (seen : Seen) {n : ℕ} {s : Seen}
    → turn_at packet attr_start attr_id attr_len seen ≡ go n s
    → (n ≡ round_up_to_multiple_of 4 (attr_val_end attr_start attr_len))
      × (attr_val_end attr_start attr_len ≤ length packet)
      × (read_attribute seen.parse_mode attr_id attr_len (attr_range attr_start attr_len) seen
          ≡ ok s)
unfolding turn_at
turn_at-go packet attr_start attr_id attr_len seen {n} {s} h =
    elim (Bool-cases (ltb (length packet) (attr_val_end attr_start attr_len))) [
      | inl t ↦ absurd (ground arith)
      | inr f ↦ let facts = go_on-go _ _ (rw f at h) in (facts.0, ground arith, facts.1)
    ]

pub some-inj {ℓ} : {A : Type ℓ} {a b : A} → some a ≡ some b → a ≡ b
some-inj h = ground arith

-- A turn that goes on has read an attribute that lies within the packet.
pub turn-go :
    (packet : List ℕ) (attr_start : ℕ) (seen : Seen) {n : ℕ} {s : Seen}
    → turn packet attr_start seen ≡ go n s
    → (n ≡ round_up_to_multiple_of 4 (attr_val_end attr_start (attr_len_at packet attr_start)))
      × (attr_val_end attr_start (attr_len_at packet attr_start) ≤ length packet)
      × (read_attribute seen.parse_mode
            (attr_id_at packet attr_start)
            (attr_len_at packet attr_start)
            (attr_range attr_start (attr_len_at packet attr_start))
            seen
          ≡ ok s)
unfolding turn
turn-go packet attr_start seen {n} {s} h =
    elim (Bool-cases (leb (attr_start + attr_header_len) (length packet))) [
      | inl t ↦
          turn_at-go packet attr_start (attr_id_at packet attr_start)
            (attr_len_at packet attr_start) seen (rw (t, turn) at h)
      | inr f ↦ absurd (ground arith)
    ]

-- Each turn moves on by at least an attribute's header, so fuel for the bytes that are left, and
-- one turn, is enough.
pub read_attributes-ends :
    (fuel : ℕ) (packet : List ℕ) (attr_start : ℕ) (seen : Seen)
    → suc (length packet) ≤ fuel + attr_start
    → 1 ≤ fuel
    → (r : Result ParseError Seen) × (read_attributes fuel packet attr_start seen ≡ some r)
unfolding read_attributes
read_attributes-ends zero packet attr_start seen h p = absurd (omega arith)
read_attributes-ends (suc fuel) packet attr_start seen h p =
    elim (Turn-cases (turn packet attr_start seen)) [
      | inl (r, e) ↦ rw (e, read_attributes) (r, refl)
      | inr (n, s, e) ↦
          let facts = turn-go packet attr_start seen e in
          rw (e, read_attributes)
            (read_attributes-ends fuel packet n s (omega (arith, facts.0)) (omega (arith, facts.1)))
    ]

-- What every turn keeps holds where the loop stops.
module _ (packet : List ℕ) (P : ℕ → Seen → Type 0)
    (step : (a : ℕ) (s : Seen) (n : ℕ) (r : Seen) → P a s → turn packet a s ≡ go n r → P n r) where
  pub read_attributes-stops :
      (fuel a : ℕ) (s : Seen) (q : Result ParseError Seen)
      → P a s
      → read_attributes fuel packet a s ≡ some q
      → (b : ℕ) × (r : Seen) × P b r × (turn packet b r ≡ stop q)
  unfolding read_attributes
  read_attributes-stops zero a s q h e = absurd (ground arith)
  read_attributes-stops (suc fuel) a s q h e = elim (Turn-cases (turn packet a s)) [
    | inl (v, t) ↦ (a, s, h, t ∙ ap stop (some-inj (rw (t, read_attributes) at e)))
    | inr (n, r, t) ↦
        read_attributes-stops fuel n r q (step a s n r h t) (rw (t, read_attributes) at e)
  ]

after_loop-ends :
    (packet : List ℕ) (r : Result ParseError Seen)
    → (q : Result ParseError BindingRequest) × (after_loop packet (some r) ≡ some q)
after_loop-ends packet (ok s) = (_, refl)
after_loop-ends packet (err e) = (_, refl)

-- parse always returns a result: the loop over the attributes ends for every packet.
pub parse-ends :
    (packet : List ℕ) → (r : Result ParseError BindingRequest) × (parse packet ≡ some r)
unfolding parse
parse-ends packet = elim (Bool-cases (ltb (length packet) header_len)) [
  | inl t ↦ rw t (_, refl)
  | inr f ↦ elim (Bool-cases (parse_u16 (slice 2 4 packet) == length packet - header_len)) [
    | inl t ↦
        let loop =
          read_attributes-ends (length packet) packet header_len nothing_seen (omega arith)
            (ground arith) in
        rw (f, t, loop.1) (after_loop-ends packet loop.0)
    | inr g ↦ rw (f, g) (_, refl)
  ]
]

-- ===== src/Ice/Faults.antt =====
-- What each error of `BindingRequest::parse` in backend/src/ice.rs says about the packet.
use signal_calling_service.Prelude.{
  ℕ, ◌+◌, ◌<◌, ◌≡◌, ◌≢◌, refl, List, length, leb, ltb, if-elim, Result, ok, err, arith, ◌==◌,
}
use signal_calling_service.Ice.{
  Seen, ParseState, reading_attributes, expect_fingerprint, done, ParseError, Turn, stop, go, go_on,
  turn, turn_at, read_attribute, header_len, attr_header_len, nothing_seen, attr_val_end,
  attr_len_at, attr_id_at, attr_range, attr_username, attr_nomination, attr_message_integrity,
  attr_fingerprint, hmac_len, fingerprint_len, range_len,
}

-- The loop comes to an attribute with what it has seen.
pub data Reached (packet : List ℕ) : ℕ → Seen → Type 0 where
  first : Reached packet header_len nothing_seen
  next : {a n : ℕ} {s r : Seen} → Reached packet a s → turn packet a s ≡ go n r → Reached packet n r

-- What an error about the attribute with this id and length at `a` says, with the mode of the
-- parser.
abbrev pub AttributeFault : ℕ → ℕ → ℕ → ℕ → ParseState → ParseError → Type 0
AttributeFault len a attr_id attr_len mode (ParseError.attribute_range_past_packet_end i n) =
    (i ≡ attr_id) × (len < attr_val_end a attr_len) × (attr_val_end a attr_len ≡ len + n)
AttributeFault len a attr_id attr_len mode (ParseError.wrong_hmac_length l e) =
    (attr_id ≡ attr_message_integrity)
    × (l ≡ attr_len)
    × (attr_len ≢ hmac_len)
    × (e ≡ hmac_len)
    × (mode ≡ reading_attributes)
AttributeFault len a attr_id attr_len mode (ParseError.wrong_fingerprint_length l e) =
    (attr_id ≡ attr_fingerprint)
    × (l ≡ attr_len)
    × (attr_len ≢ fingerprint_len)
    × (e ≡ fingerprint_len)
    × (mode ≡ expect_fingerprint)
AttributeFault len a attr_id attr_len mode ParseError.fingerprint_before_hmac =
    (attr_id ≡ attr_fingerprint) × (mode ≡ reading_attributes)
AttributeFault len a attr_id attr_len mode (ParseError.expected_fingerprint i) =
    (i ≡ attr_id) × (attr_id ≢ attr_fingerprint) × (mode ≡ expect_fingerprint)
AttributeFault len a attr_id attr_len mode (ParseError.attribute_after_fingerprint i) =
    (i ≡ attr_id) × (mode ≡ done)
AttributeFault len a attr_id attr_len mode _ = ⊥

abbrev OnErr : (ParseError → Type 0) → Result ParseError Seen → Type 0
OnErr Q (ok s) = Unit
OnErr Q (err e) = Q e

abbrev pub OnStop : (Seen → Type 0) → (ParseError → Type 0) → Turn → Type 0
OnStop P Q (stop (ok s)) = P s
OnStop P Q (stop (err e)) = Q e
OnStop P Q (go n s) = Unit

module _ (len a attr_id attr_len : ℕ) where
  abbrev Fault : ParseState → Result ParseError Seen → Type 0
  Fault mode = OnErr (AttributeFault len a attr_id attr_len mode)

  read_attribute-Fault :
      (mode : ParseState) (seen : Seen)
      → Fault mode (read_attribute mode attr_id attr_len (attr_range a attr_len) seen)
  read_attribute-Fault reading_attributes seen =
      if-elim (Fault reading_attributes) (attr_id == attr_username) (λ _. tt)
        λ _.
          if-elim (Fault reading_attributes) (attr_id == attr_nomination) (λ _. tt)
            λ _.
              if-elim (Fault reading_attributes) (attr_id == attr_message_integrity)
                (λ t.
                  if-elim (Fault reading_attributes) (range_len (attr_range a attr_len) == hmac_len)
                    (λ _. tt) λ l. (ground arith, refl, ground arith, refl, refl))
                λ _.
                  if-elim (Fault reading_attributes) (attr_id == attr_fingerprint)
                    (λ t. (ground arith, refl)) λ _. tt
  read_attribute-Fault expect_fingerprint seen =
      if-elim (Fault expect_fingerprint) (attr_id == attr_fingerprint)
        (λ t.
          if-elim (Fault expect_fingerprint) (range_len (attr_range a attr_len) == fingerprint_len)
            (λ _. tt) λ l. (ground arith, refl, ground arith, refl, refl))
        λ f. (refl, ground arith, refl)
  read_attribute-Fault done seen = (refl, refl)

pub go_on-OnStop :
    (P : Seen → Type 0) (Q : ParseError → Type 0) (n : ℕ) (r : Result ParseError Seen)
    → OnErr Q r
    → OnStop P Q (go_on n r)
go_on-OnStop P Q n (ok s) h = tt
go_on-OnStop P Q n (err e) h = h

-- The loop stops with what it has seen at the packet's end, or with an error about an attribute.
pub turn-OnStop :
    (packet : List ℕ) (a : ℕ) (seen : Seen)
    → OnStop
        (λ s. (s ≡ seen) × (length packet < a + attr_header_len))
        (AttributeFault
          (length packet)
          a
          (attr_id_at packet a)
          (attr_len_at packet a)
          seen.parse_mode)
        (turn packet a seen)
unfolding turn turn_at
turn-OnStop packet a seen =
    let P : Seen → Type 0 = λ s. (s ≡ seen) × (length packet < a + attr_header_len) in
    let Q : ParseError → Type 0 =
      AttributeFault (length packet) a (attr_id_at packet a) (attr_len_at packet a)
        seen.parse_mode in
    if-elim (OnStop P Q) (leb (a + attr_header_len) (length packet))
      (λ _.
        if-elim (OnStop P Q) (ltb (length packet) (attr_val_end a (attr_len_at packet a)))
          (λ t. (refl, ground arith, ground arith))
          λ _. go_on-OnStop P Q _ _ (
            read_attribute-Fault (length packet) a (attr_id_at packet a) (attr_len_at packet a)
              seen.parse_mode seen))
      λ f. (refl, ground arith)

-- ===== src/Ice/Bounds.antt =====
-- Where the ranges that `BindingRequest::parse` of backend/src/ice.rs finds lie in the packet.
use signal_calling_service.Prelude.{
  ℕ, ◌+◌, ◌-◌, ◌≤◌, ◌≡◌, refl, Option, none, some, List, length, OnOk, OnOk-ok, if-elim, Result,
  arith, ◌==◌,
}
use signal_calling_service.Ice.{
  Seen, ParseState, reading_attributes, expect_fingerprint, done, ParseError, BindingRequest, Range,
  go, turn, read_attribute, attr_header_len, attr_val_end, attr_len_at, attr_id_at, attr_range,
  attr_username, attr_nomination, attr_message_integrity, attr_fingerprint, hmac_len,
  fingerprint_len,
}
use signal_calling_service.Ice.Ends.{turn-go}

-- A range that an option holds starts at `a` or later and ends at `b` or before.
abbrev pub Within : ℕ → ℕ → Option Range → Type 0
Within a b none = Unit
Within a b (some r) = (a ≤ r.start) × (r.start ≤ r.end) × (r.end ≤ b)

-- What holds of the ranges seen by the time the loop is at `attr_start`.
abbrev pub SeenIn : ℕ → ParseState → ℕ → Seen → Type 0
SeenIn len reading_attributes attr_start seen =
    Within 24 attr_start seen.username × (seen.hmac ≡ none) × (seen.fingerprint ≡ none)
SeenIn len expect_fingerprint attr_start seen =
    (h : Range) × (seen.hmac ≡ some h)
    × (h.end ≡ h.start + hmac_len)
    × (h.end ≤ attr_start)
    × (24 ≤ h.start)
    × Within 24 (h.start - attr_header_len) seen.username
    × (seen.fingerprint ≡ none)
SeenIn len done attr_start seen =
    (h : Range) × (f : Range) × (seen.hmac ≡ some h)
    × (h.end ≡ h.start + hmac_len)
    × (24 ≤ h.start)
    × Within 24 (h.start - attr_header_len) seen.username
    × (seen.fingerprint ≡ some f)
    × (f.end ≡ f.start + fingerprint_len)
    × (h.end + attr_header_len ≤ f.start)
    × (f.end ≤ len)

Within-mono : (a b c : ℕ) (r : Option Range) → b ≤ c → Within a b r → Within a c r
Within-mono a b c none h w = tt
Within-mono a b c (some r) h w = (w.0, w.1, omega (arith, w.2))

module _ (len attr_start attr_id attr_len next : ℕ) (low : 20 ≤ attr_start)
    (fits : attr_val_end attr_start attr_len ≤ len)
    (on : attr_val_end attr_start attr_len ≤ next) where
  abbrev Kept : Result ParseError Seen → Type 0
  Kept = OnOk (λ s. SeenIn len s.parse_mode next s)

  read_attribute-SeenIn :
      (mode : ParseState) (seen : Seen)
      → seen.parse_mode ≡ mode
      → SeenIn len mode attr_start seen
      → Kept (read_attribute mode attr_id attr_len (attr_range attr_start attr_len) seen)
  read_attribute-SeenIn reading_attributes seen m h =
      if-elim Kept (attr_id == attr_username)
        (λ t. rw m (((omega arith), (omega arith), on), h.1, h.2))
        λ _.
          if-elim Kept (attr_id == attr_nomination)
            (λ t. rw m (Within-mono 24 attr_start next seen.username (omega arith) h.0, h.1, h.2))
            λ _.
              if-elim Kept (attr_id == attr_message_integrity)
                (λ t.
                  if-elim Kept
                    (attr_start + attr_header_len + attr_len - (attr_start + attr_header_len)
                      == hmac_len)
                    (λ l. (
                      attr_range attr_start attr_len,
                      refl,
                      ground arith,
                      on,
                      omega arith,
                      Within-mono 24 attr_start (attr_start + attr_header_len - attr_header_len)
                          seen.username (omega arith) h.0,
                      h.2,
                    ))
                    λ _. tt)
                λ _.
                  if-elim Kept (attr_id == attr_fingerprint) (λ _. tt)
                    (λ _.
                      rw m
                        (Within-mono 24 attr_start next seen.username (omega arith) h.0, h.1, h.2))
  read_attribute-SeenIn expect_fingerprint seen m h =
      if-elim Kept (attr_id == attr_fingerprint)
        (λ t.
          if-elim Kept
            (attr_start + attr_header_len + attr_len - (attr_start + attr_header_len)
              == fingerprint_len)
            (λ l. (
              h.0,
              attr_range attr_start attr_len,
              h.1,
              h.2,
              h.4,
              h.5,
              refl,
              ground arith,
              omega (arith, h.3),
              fits,
            ))
            λ _. tt)
        λ _. tt
  read_attribute-SeenIn done seen m h = tt

-- A turn that goes on keeps what holds of the ranges.
pub turn-SeenIn :
    (packet : List ℕ) (a : ℕ) (s : Seen) (n : ℕ) (r : Seen)
    → (20 ≤ a) × SeenIn (length packet) s.parse_mode a s
    → turn packet a s ≡ go n r
    → (20 ≤ n) × SeenIn (length packet) r.parse_mode n r
turn-SeenIn packet a s n r h t =
    let facts = turn-go packet a s t in
    let l = attr_len_at packet a in
    (
      omega (arith, h.0, facts.0),
      OnOk-ok _ _
          (read_attribute-SeenIn (length packet) a (attr_id_at packet a) l n h.0 facts.1
            (omega (arith, facts.0)) s.parse_mode s refl h.1)
          facts.2,
    )

-- The ranges in the request are in the packet's body, in the order username, hmac, fingerprint,
-- with room for the headers of the last two.
abbrev pub RangesIn : BindingRequest → Type 0
RangesIn b =
    Within 24 (b.ranges.hmac.start - attr_header_len) (some b.ranges.username)
    × (24 ≤ b.ranges.hmac.start)
    × (b.ranges.hmac.end ≡ b.ranges.hmac.start + hmac_len)
    × (b.ranges.hmac.end + attr_header_len ≤ b.ranges.fingerprint.start)
    × (b.ranges.fingerprint.end ≡ b.ranges.fingerprint.start + fingerprint_len)
    × (b.ranges.fingerprint.end ≤ length b.packet)

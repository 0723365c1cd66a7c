-- ===== src/Ice/Reading.antt =====
-- What the loop of `BindingRequest::parse` of backend/src/ice.rs reads of a packet that
-- `create_packet` made.
use signal_calling_service.Prelude.{
  ℕ, suc, ◌+◌, ◌-◌, ◌<◌, ◌%◌, ◌≡◌, refl, ap, ◌∙◌, Bool, true, false, none, some, List, [], ◌++◌,
  length, drop, ok, arith, if◌then◌else◌,
}
use signal_calling_service.Bytes.{
  slice, repeat, length-repeat, round_up_to_multiple_of, append_assoc, append_nil, drop-append,
}
use signal_calling_service.Serialize.{to_vec, length-to_vec, empty, optional}
use signal_calling_service.Ice.{
  Seen, reading_attributes, go, turn, read_attributes, attr_range, nothing_seen, attr_username,
  attr_nomination, attr_message_integrity, attr_fingerprint, hmac_len,
}
use signal_calling_service.Ice.Packet.{write_stun_attribute}
use signal_calling_service.Ice.Layout.{attr_header, hmaced, laid_out, hmac_value, fingerprint_value}
use signal_calling_service.Ice.Tail.{seen_all, read-tail}
use signal_calling_service.Ice.Walk.{
  attribute-go, next-attribute, value-attribute, read_attributes-go,
}

-- What the loop has seen after the attributes that the hmac covers, from `a` on, and where it is.
abbrev pub after_username : ℕ → ℕ → Bool → Seen
after_username a len nominated = record {
  parse_mode = reading_attributes;
  username = some (attr_range a len);
  hmac = none;
  fingerprint = none;
  nomination =
      if nominated then some (attr_range (round_up_to_multiple_of 4 (a + 4 + len)) 0) else none;
}

abbrev nomination_of : Bool → List ℕ
nomination_of nominated =
    to_vec
      (optional (if nominated then some (write_stun_attribute attr_nomination empty) else none))

nomination_aligned : (nominated : Bool) → (if nominated then 4 else 0) % 4 ≡ 0
nomination_aligned true = refl
nomination_aligned false = refl

pub length-hmaced :
    (user : List ℕ) (nominated : Bool)
    → length (to_vec (hmaced user nominated))
      ≡ 4 + round_up_to_multiple_of 4 (length user) + (if nominated then 4 else 0)
length-hmaced user true =
    length-to_vec (hmaced user true)
    ∙ omega (arith, length-repeat {A = ℕ} (round_up_to_multiple_of 4 (length user) - length user) 0)
length-hmaced user false =
    length-to_vec (hmaced user false)
    ∙ omega (arith, length-repeat {A = ℕ} (round_up_to_multiple_of 4 (length user) - length user) 0)

-- The loop behind the username reads a nomination where there is one.
read-nomination :
    (packet : List ℕ) (a len : ℕ) (nominated : Bool) (tail : List ℕ) (fuel : ℕ)
    → a ≡ round_up_to_multiple_of 4 (24 + len)
    → drop a packet ≡ nomination_of nominated ++ tail
    → (drop (if nominated then a + 4 else a) packet ≡ tail)
      × ((f : ℕ) × (read_attributes
              (suc (suc (suc (suc fuel))))
              packet
              a
              (after_username 20 len false)
            ≡ read_attributes
                (suc (suc (suc f)))
                packet
                (if nominated then a + 4 else a)
                (after_username 20 len nominated)))
read-nomination packet a len false tail fuel ha h = (h, (suc fuel, refl))
read-nomination packet a len true tail fuel ha h = (
  ap (λ n. drop n packet) {y = round_up_to_multiple_of 4 (a + 4 + 0)} (omega arith)
      ∙ next-attribute packet a attr_nomination 0 [] [] tail h (omega arith) (omega arith) refl refl
          (omega arith),
  (
    fuel,
    read_attributes-go (suc (suc (suc fuel))) packet a (after_username 20 len false) (
        attribute-go packet a attr_nomination 0 [] [] tail h (omega arith) (omega arith) refl refl
          (omega arith) reading_attributes (after_username 20 len false) refl (omega arith)
          (ap
            (λ n. ok (record (after_username 20 len false) { nomination = some (attr_range n 0) }))
            ha)),
  ),
)

-- What the parser reads of a packet laid out for this username and this password.
module _ (mac : List ℕ → List ℕ → List ℕ) (crc : List ℕ → ℕ) (transaction_id user pwd : List ℕ)
    (nominated : Bool) (ht : length transaction_id ≡ 16)
    (hm : (key message : List ℕ) → length (mac key message) ≡ hmac_len)
    (small : length user + 48 < 65536) where
  abbrev pub body : List ℕ
  body = to_vec (hmaced user nominated)

  abbrev pub packet : List ℕ
  packet = laid_out mac crc 0 1 transaction_id pwd body

  abbrev pub hmac_bytes : List ℕ
  hmac_bytes = hmac_value mac crc 0 1 transaction_id pwd body

  abbrev pub fingerprint_bytes : List ℕ
  fingerprint_bytes = fingerprint_value mac crc 0 1 transaction_id pwd body

  abbrev pub tail : List ℕ
  tail =
      attr_header attr_message_integrity 20
      ++ (hmac_bytes ++ (attr_header attr_fingerprint 4 ++ fingerprint_bytes))

  abbrev pad : List ℕ
  pad = repeat (round_up_to_multiple_of 4 (length user) - length user) 0

  abbrev nomination : List ℕ
  nomination =
      to_vec
        (optional (if nominated then some (write_stun_attribute attr_nomination empty) else none))

  abbrev after_user : ℕ
  after_user = round_up_to_multiple_of 4 (24 + length user)

  abbrev pub tail_start : ℕ
  tail_start = if nominated then after_user + 4 else after_user

  pub at_user :
      drop 20 packet
      ≡ attr_header attr_username (length user) ++ (user ++ (pad ++ (nomination ++ tail)))
  at_user =
      drop-append 16 transaction_id (body ++ tail) ht
      ∙ ap (◌++◌ (attr_header attr_username (length user))) (
          append_assoc (user ++ (pad ++ [])) nomination tail
          ∙ append_assoc user (pad ++ []) (nomination ++ tail)
          ∙ ap (λ p. user ++ (p ++ (nomination ++ tail))) (append_nil pad))

  turn-user : turn packet 20 nothing_seen ≡ go after_user (after_username 20 (length user) false)
  turn-user =
      attribute-go packet 20 attr_username (length user) user pad (nomination ++ tail) at_user
        (omega arith) (omega (arith, small)) (length-repeat _ 0) refl refl reading_attributes
        nothing_seen refl refl refl

  at_nomination : drop after_user packet ≡ nomination ++ tail
  at_nomination =
      next-attribute packet 20 attr_username (length user) user pad (nomination ++ tail) at_user
        (omega arith) (omega (arith, small)) (length-repeat _ 0) refl refl

  pub value-user : slice 24 (24 + length user) packet ≡ user
  value-user =
      value-attribute packet 20 attr_username (length user) user pad (nomination ++ tail) at_user
        (omega arith) (omega (arith, small)) (length-repeat _ 0) refl refl

  pub tail_start_eq : tail_start ≡ 20 + length body
  tail_start_eq = ground (arith, length-hmaced user nominated)

  abbrev pub seen_end : Seen
  seen_end = seen_all tail_start (after_username 20 (length user) nominated)

  found :
      (fuel : ℕ)
      → (drop tail_start packet ≡ tail)
        × ((f : ℕ) × (read_attributes
                (suc (suc (suc (suc fuel))))
                packet
                after_user
                (after_username 20 (length user) false)
              ≡ read_attributes
                  (suc (suc (suc f)))
                  packet
                  tail_start
                  (after_username 20 (length user) nominated)))
  found fuel =
      read-nomination packet after_user (length user) nominated tail fuel refl at_nomination

  pub tail_aligned : tail_start % 4 ≡ 0
  tail_aligned =
      omega (arith, tail_start_eq, length-hmaced user nominated, nomination_aligned nominated)

  pub value-hmac : slice (tail_start + 4) (tail_start + 24) packet ≡ hmac_bytes
  value-hmac =
      ap (λ e. slice (tail_start + 4) e packet) {y = tail_start + 4 + 20} (omega arith)
      ∙ value-attribute packet tail_start attr_message_integrity 20 hmac_bytes []
          (attr_header attr_fingerprint 4 ++ fingerprint_bytes) ((found 0).0) (omega arith)
          (omega arith) refl (hm _ _) tail_aligned

  pub read-all :
      (fuel : ℕ)
      → read_attributes (suc (suc (suc (suc (suc fuel))))) packet 20 nothing_seen
        ≡ some (ok seen_end)
  read-all fuel =
      read_attributes-go (suc (suc (suc (suc fuel)))) packet 20 nothing_seen turn-user
      ∙ (found fuel).1.1
      ∙ read-tail packet tail_start hmac_bytes fingerprint_bytes
          (after_username 20 (length user) nominated) (found fuel).0 (hm _ _) refl tail_aligned refl
          (found fuel).1.0

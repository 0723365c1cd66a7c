-- ===== src/Ice/RoundTrip.antt =====
-- A binding request that backend/src/ice.rs creates is parsed to what it was created from, and its
-- hmac is verified.
use signal_calling_service.Prelude.{
  ℕ, suc, ◌+◌, ◌-◌, ◌<◌, ◌≤◌, ◌%◌, ◌^◌, ◌≡◌, refl, sym, ap, ◌∙◌, Bool, true, false, Option, none,
  some, is_some, ==_refl, List, [], ◌∷◌, ◌++◌, length, length-append, take, if-elim, ap₂, Result,
  ok, arith, ltb, ◌==◌, if◌then◌else◌,
}
use signal_calling_service.Bytes.{slice, parse_u16, be16, append_assoc, take-append}
use signal_calling_service.Serialize.{to_vec}
use signal_calling_service.Ice.{
  Seen, ParseError, BindingRequest, read_attributes, parse, after_loop, finish, Range, header_len,
  attr_range, nothing_seen, attr_message_integrity, attr_fingerprint, hmac_len, username, byte_eq,
}
use signal_calling_service.Ice.Packet.{create_binding_request_packet, verify_hmac, calculate_hmac}
use signal_calling_service.Ice.Layout.{
  attr_header, hmaced, headed, laid_out, hmac_value, fingerprint_value, create_packet-laid_out,
}
use signal_calling_service.Ice.Reading.{
  body, packet, hmac_bytes, tail, tail_start, seen_end, tail_start_eq, read-all, value-user,
  value-hmac, length-hmaced,
}

pub byte_eq_refl : (l : List ℕ) → byte_eq l l ≡ true
byte_eq_refl [] = refl
byte_eq_refl (x ∷ l) = rw (==_refl x) (byte_eq_refl l)

parse-finish :
    (packet : List ℕ) (seen : Seen)
    → 20 ≤ length packet
    → parse_u16 (slice 2 4 packet) ≡ length packet - 20
    → read_attributes (length packet) packet 20 nothing_seen ≡ some (ok seen)
    → parse packet ≡ some (finish packet seen)
unfolding parse
parse-finish packet seen long declared h =
    if-elim Q (ltb (length packet) header_len) (λ t. absurd (ground arith))
      λ _.
        if-elim Q (parse_u16 (slice 2 4 packet) == length packet - header_len)
          (λ _. ap (after_loop packet) h) λ f. absurd (ground arith)
  where
    Q : Option (Result ParseError BindingRequest) → Type 0
    Q o = o ≡ some (finish packet seen)

length-laid_out :
    (mac : List ℕ → List ℕ → List ℕ) (crc : List ℕ → ℕ) (tid pwd body : List ℕ)
    → length tid ≡ 16
    → ((key message : List ℕ) → length (mac key message) ≡ hmac_len)
    → length (laid_out mac crc 0 1 tid pwd body) ≡ 52 + length body
length-laid_out mac crc tid pwd body ht hm =
    let h = hmac_value mac crc 0 1 tid pwd body in
    let f = fingerprint_value mac crc 0 1 tid pwd body in
    let behind = attr_header attr_fingerprint 4 ++ f in
    let tail = attr_header attr_message_integrity 20 ++ (h ++ behind) in
    omega (
      arith,
      ht,
      length-append tid (body ++ tail),
      length-append body tail,
      length-append h behind,
      hm pwd (headed 0 1 tid (length body + 24) body),
    )

is_some-nomination : (n : Bool) (r : Range) → is_some (if n then some r else none) ≡ n
is_some-nomination true r = refl
is_some-nomination false r = refl

extra_small : (n : Bool) → (if n then 4 else 0) ≤ 4
extra_small true = omega arith
extra_small false = omega arith

calculate_hmac-headed :
    (mac : List ℕ → List ℕ → List ℕ) (crc : List ℕ → ℕ) (tid pwd body rest : List ℕ) (start : ℕ)
    (user finger : Range)
    → length tid ≡ 16
    → start ≡ 20 + length body
    → calculate_hmac mac crc
        (headed 0 1 tid (length body + 32) (body ++ rest))
        (record { username = user; hmac = attr_range start 20; fingerprint = finger })
        pwd
      ≡ hmac_value mac crc 0 1 tid pwd body
calculate_hmac-headed mac crc tid pwd body rest start user finger ht h = ap (mac pwd) (
    ap₂ (λ n t. 0 ∷ 1 ∷ (be16 (n % 2 ^ 16) ++ t)) {x = start + 4 + 20 - 20} (omega arith)
      (ap (take (start + 4 - 4 - 4)) (sym (append_assoc tid body rest))
        ∙ take-append (start + 4 - 4 - 4) (tid ++ body) rest
            (omega (arith, length-append tid body))))

module _ (mac : List ℕ → List ℕ → List ℕ) (crc : List ℕ → ℕ) (transaction_id user pwd : List ℕ)
    (nominated : Bool) (ht : length transaction_id ≡ 16)
    (hm : (key message : List ℕ) → length (mac key message) ≡ hmac_len)
    (small : length user + 48 < 65536) where
  abbrev made : List ℕ
  made = packet mac crc transaction_id user pwd nominated ht hm small

  abbrev start : ℕ
  start = tail_start mac crc transaction_id user pwd nominated ht hm small

  -- The request that is parsed.
  abbrev request : BindingRequest
  request = record {
    packet = made;
    is_nominated = nominated;
    ranges = record {
      username = attr_range 20 (length user);
      hmac = attr_range start 20;
      fingerprint = attr_range (start + 24) 4;
    };
  }

  body_len : length made ≡ 52 + length (to_vec (hmaced user nominated))
  body_len = length-laid_out mac crc transaction_id pwd (to_vec (hmaced user nominated)) ht hm

  body_small : length (to_vec (hmaced user nominated)) + 32 < 65536
  body_small = omega (arith, small, length-hmaced user nominated, extra_small nominated)

  declared : parse_u16 (slice 2 4 made) ≡ length made - 20
  declared = omega (arith, body_len, body_small)

  fuelled :
      read_attributes (length made) made 20 nothing_seen
      ≡ some (ok (seen_end mac crc transaction_id user pwd nominated ht hm small))
  fuelled =
      ap (λ n. read_attributes n made 20 nothing_seen)
        {y = suc (suc (suc (suc (suc (47 + length (to_vec (hmaced user nominated)))))))}
        (omega (arith, body_len))
      ∙ read-all mac crc transaction_id user pwd nominated ht hm small
          (47 + length (to_vec (hmaced user nominated)))

  parse-made : parse made ≡ some (ok request)
  parse-made =
      parse-finish made (seen_end mac crc transaction_id user pwd nominated ht hm small)
        (omega (arith, body_len)) declared fuelled
      ∙ ap (λ n. some (ok (record request { is_nominated = n }))) (is_some-nomination nominated _)

  verify_hmac-made : verify_hmac mac crc request pwd ≡ true
  verify_hmac-made =
      ap₂ byte_eq
        (calculate_hmac-headed mac crc transaction_id pwd (to_vec (hmaced user nominated))
          (tail mac crc transaction_id user pwd nominated ht hm small) start
          (attr_range 20 (length user)) (attr_range (start + 24) 4) ht
          (tail_start_eq mac crc transaction_id user pwd nominated ht hm small))
        (ap (λ e. slice (start + 4) e made) {x = start + 4 + 20} (omega arith)
          ∙ value-hmac mac crc transaction_id user pwd nominated ht hm small)
      ∙ byte_eq_refl (hmac_bytes mac crc transaction_id user pwd nominated ht hm small)

  -- A binding request made for a transaction id of 16 bytes, a username that leaves room for the
  -- other attributes in 2 ^ 16 bytes and a password is parsed: the username and the nomination are
  -- those it was made with, and its hmac is verified with the same password, when HMACs have 20
  -- bytes.
  pub parse-create_binding_request_packet :
      (b : BindingRequest) × (parse
          (create_binding_request_packet mac crc transaction_id user pwd nominated)
        ≡ some (ok b))
      × (username b ≡ user)
      × (b.is_nominated ≡ nominated)
      × (verify_hmac mac crc b pwd ≡ true)
  parse-create_binding_request_packet = (
    request,
    ap parse (create_packet-laid_out mac crc 0 1 transaction_id user pwd nominated ht hm)
        ∙ parse-made,
    value-user mac crc transaction_id user pwd nominated ht hm small,
    refl,
    verify_hmac-made,
  )

-- ===== src/Ice.antt =====
-- backend/src/ice.rs: STUN binding requests of ICE lite, their layout, the parser and the
-- packets the server writes. HMAC-SHA1 and CRC32 are other crates' and parameters where they are
-- used.
pub mod Ends
pub mod Bounds
pub mod Faults
pub mod Errors
pub mod Packet
pub mod Layout
pub mod Walk
pub mod Reading
pub mod RoundTrip
pub mod Tail
use signal_calling_service.Prelude.{
  ℕ, zero, suc, ◌+◌, ◌-◌, Bool, true, false, ◌&&◌, ◌==◌, ltb, leb, if◌then◌else◌, Option, none,
  some, is_some, List, [], ◌∷◌, ◌++◌, length, take, drop, Result, ok, err, ok_or, and_then,
}
use signal_calling_service.Bytes.{parse_u16, round_up_to_multiple_of, slice}

abbrev pub header_len : ℕ
header_len = 20

abbrev pub hmac_len : ℕ
hmac_len = 20

abbrev pub fingerprint_len : ℕ
fingerprint_len = 4

abbrev pub attr_header_len : ℕ
attr_header_len = 4

abbrev pub binding_request_id : List ℕ
binding_request_id = 0 ∷ 1 ∷ []

abbrev pub binding_response_id : List ℕ
binding_response_id = 1 ∷ 1 ∷ []

abbrev pub magic_cookie : List ℕ
magic_cookie = 33 ∷ 18 ∷ 164 ∷ 66 ∷ []

-- `AttributeId`
abbrev pub attr_username : ℕ
attr_username = 6

abbrev pub attr_message_integrity : ℕ
attr_message_integrity = 8

abbrev pub attr_fingerprint : ℕ
attr_fingerprint = 32808

abbrev pub attr_nomination : ℕ
attr_nomination = 37

-- `join_username`: 58 is the colon.
abbrev pub join_username : List ℕ → List ℕ → List ℕ
join_username sender_ufrag receiver_ufrag = receiver_ufrag ++ 58 ∷ sender_ufrag

-- `Range<usize>`
pub record Range : Type 0 where
  pub start : ℕ
  pub end : ℕ

abbrev pub range_len : Range → ℕ
range_len r = r.end - r.start

pub record BindingRequestRanges : Type 0 where
  pub username : Range
  pub hmac : Range
  pub fingerprint : Range

pub record BindingRequest : Type 0 where
  pub packet : List ℕ
  pub is_nominated : Bool
  pub ranges : BindingRequestRanges

pub data ParseError : Type 0 where
  incomplete_header : ℕ → ParseError
  missing_username_attribute missing_hmac_attribute missing_fingerprint_attribute : ParseError
  declared_message_length_mismatch : ℕ → ℕ → ParseError
  wrong_hmac_length wrong_fingerprint_length : ℕ → ℕ → ParseError
  fingerprint_before_hmac : ParseError
  expected_fingerprint attribute_after_fingerprint : ℕ → ParseError
  attribute_range_past_packet_end : ℕ → ℕ → ParseError

-- The states of the parser, and the ranges it has seen.
pub data ParseState : Type 0 where
  reading_attributes expect_fingerprint done : ParseState

pub record Seen : Type 0 where
  pub parse_mode : ParseState
  pub username : Option Range
  pub hmac : Option Range
  pub fingerprint : Option Range
  pub nomination : Option Range

abbrev pub nothing_seen : Seen
nothing_seen = record {
  parse_mode = reading_attributes;
  username = none;
  hmac = none;
  fingerprint = none;
  nomination = none;
}

abbrev pub byte_eq : List ℕ → List ℕ → Bool
byte_eq [] [] = true
byte_eq (x ∷ xs) (y ∷ ys) = (x == y) && byte_eq xs ys
byte_eq _ _ = false

-- `looks_like_header`
abbrev pub looks_like_header : List ℕ → Bool
looks_like_header packet =
    leb 8 (length packet)
    && byte_eq (slice 0 2 packet) binding_request_id
    && byte_eq (slice 4 8 packet) magic_cookie

-- The `match parse_mode` in the loop of `parse`, for an attribute with its id, its length and the
-- range of its value.
abbrev pub read_attribute : ParseState → ℕ → ℕ → Range → Seen → Result ParseError Seen
read_attribute reading_attributes attr_id attr_len attr_range seen =
    if attr_id == attr_username
    then ok (record seen { username = some attr_range })
    else if attr_id == attr_nomination
    then ok (record seen { nomination = some attr_range })
    else if attr_id == attr_message_integrity
    then if range_len attr_range == hmac_len
      then ok (record seen { hmac = some attr_range; parse_mode = expect_fingerprint })
      else err (wrong_hmac_length attr_len hmac_len)
    else if attr_id == attr_fingerprint
    then err fingerprint_before_hmac
    else ok seen
read_attribute expect_fingerprint attr_id attr_len attr_range seen =
    if attr_id == attr_fingerprint
    then if range_len attr_range == fingerprint_len
      then ok (record seen { fingerprint = some attr_range; parse_mode = done })
      else err (wrong_fingerprint_length attr_len fingerprint_len)
    else err (expected_fingerprint attr_id)
read_attribute done attr_id attr_len attr_range seen = err (attribute_after_fingerprint attr_id)

-- One turn of the loop of `parse`: the loop ends with a result, or goes on at the next attribute.
pub data Turn : Type 0 where
  stop : Result ParseError Seen → Turn
  go : ℕ → Seen → Turn

abbrev pub go_on : ℕ → Result ParseError Seen → Turn
go_on next (ok seen) = go next seen
go_on next (err e) = stop (err e)

-- The id and the length in the header of the attribute at `attr_start`.
abbrev pub attr_id_at : List ℕ → ℕ → ℕ
attr_id_at packet attr_start =
    parse_u16 (slice 0 2 (slice attr_start (attr_start + attr_header_len) packet))

abbrev pub attr_len_at : List ℕ → ℕ → ℕ
attr_len_at packet attr_start =
    parse_u16 (slice 2 4 (slice attr_start (attr_start + attr_header_len) packet))

abbrev pub attr_val_end : ℕ → ℕ → ℕ
attr_val_end attr_start attr_len = attr_start + attr_header_len + attr_len

abbrev pub attr_range : ℕ → ℕ → Range
attr_range attr_start attr_len = record {
  start = attr_start + attr_header_len;
  end = attr_val_end attr_start attr_len;
}

-- The body of the loop, once the header has been read.
unfoldable pub turn_at : List ℕ → ℕ → ℕ → ℕ → Seen → Turn
turn_at packet attr_start attr_id attr_len seen =
    if ltb (length packet) (attr_val_end attr_start attr_len)
    then stop (
        err (
          attribute_range_past_packet_end attr_id
            (attr_val_end attr_start attr_len - length packet)))
    else go_on (round_up_to_multiple_of 4 (attr_val_end attr_start attr_len))
        (read_attribute seen.parse_mode attr_id attr_len (attr_range attr_start attr_len) seen)

unfoldable pub turn : List ℕ → ℕ → Seen → Turn
turn packet attr_start seen =
    if leb (attr_start + attr_header_len) (length packet)
    then turn_at packet attr_start (attr_id_at packet attr_start) (attr_len_at packet attr_start)
        seen
    else stop (ok seen)

-- The loop, with fuel: `none` is a loop that has not ended.
unfoldable pub read_attributes : ℕ → List ℕ → ℕ → Seen → Option (Result ParseError Seen)
read_attributes zero packet attr_start seen = none
read_attributes (suc fuel) packet attr_start seen = elim (turn packet attr_start seen) [
  | stop r ↦ some r
  | go next seen' ↦ read_attributes fuel packet next seen'
]

-- What `parse` does when the loop has ended.
abbrev pub finish : List ℕ → Seen → Result ParseError BindingRequest
finish packet seen = and_then (ok_or seen.username missing_username_attribute) λ username.
    and_then (ok_or seen.hmac missing_hmac_attribute) λ hmac.
      and_then (ok_or seen.fingerprint missing_fingerprint_attribute) λ fingerprint. ok (record {
        packet = packet;
        is_nominated = is_some seen.nomination;
        ranges = record { username = username; hmac = hmac; fingerprint = fingerprint };
      })

abbrev pub after_loop :
    List ℕ → Option (Result ParseError Seen) → Option (Result ParseError BindingRequest)
after_loop packet none = none
after_loop packet (some (ok seen)) = some (finish packet seen)
after_loop packet (some (err e)) = some (err e)

-- `BindingRequest::parse`
unfoldable pub parse : List ℕ → Option (Result ParseError BindingRequest)
parse packet =
    let declared_message_length = parse_u16 (slice 2 4 packet) in
    let actual_message_length = length packet - header_len in
    if ltb (length packet) header_len
    then some (err (incomplete_header (length packet)))
    else if declared_message_length == actual_message_length
    then after_loop packet (read_attributes (length packet) packet header_len nothing_seen)
    else some (err (declared_message_length_mismatch declared_message_length actual_message_length))

-- `nominated`, `hmac`, `fingerprint`, `username`
abbrev pub hmac : BindingRequest → List ℕ
hmac r = slice r.ranges.hmac.start r.ranges.hmac.end r.packet

abbrev pub fingerprint : BindingRequest → List ℕ
fingerprint r = slice r.ranges.fingerprint.start r.ranges.fingerprint.end r.packet

abbrev pub username : BindingRequest → List ℕ
username r = slice r.ranges.username.start r.ranges.username.end r.packet

-- ===== src/Vp8.antt =====
-- backend/src/vp8.rs: the VP8 payload header.
pub mod Modified
use signal_calling_service.Prelude.{
  ℕ, ◌+◌, ◌-◌, ◌*◌, ◌/◌, ◌%◌, ◌^◌, Bool, true, false, not, ◌&&◌, ◌||◌, ◌==◌, ltb, if◌then◌else◌,
  Option, none, some, List, [], ◌∷◌, ◌++◌, length, take, drop, Result, ok, err, and_then,
}
use signal_calling_service.Counters.{expand_truncated_counter}
use signal_calling_service.Bytes.{be16}

-- `PixelSize`.
pub record PixelSize : Type 0 where
  pub width : ℕ
  pub height : ℕ

pub record ParsedHeader : Type 0 where
  pub picture_id : Option ℕ
  pub tl0_pic_idx : Option ℕ
  pub is_key_frame : Bool
  pub resolution : Option PixelSize

-- `byte.ms_bit(index)` of a byte.
abbrev pub ms_bit : ℕ → ℕ → Bool
ms_bit byte index = byte / 2 ^ (7 - index) % 2 == 1

pub record Byte0 : Type 0 where
  pub has_extensions : Bool
  pub starts_partition : Bool
  pub zero_partition_idx : Bool

abbrev pub parse_byte0 : ℕ → Byte0
parse_byte0 byte0 = record {
  has_extensions = ms_bit byte0 0;
  starts_partition = ms_bit byte0 3;
  zero_partition_idx = byte0 % 8 == 0;
}

abbrev pub has_payload_header : Byte0 → Bool
has_payload_header b = b.starts_partition && b.zero_partition_idx

pub record XByte : Type 0 where
  pub has_picture_id : Bool
  pub has_tl0_pic_idx : Bool
  pub has_tid : Bool
  pub has_key_idx : Bool

abbrev pub parse_x_byte : ℕ → XByte
parse_x_byte x_byte = record {
  has_picture_id = ms_bit x_byte 0;
  has_tl0_pic_idx = ms_bit x_byte 1;
  has_tid = ms_bit x_byte 2;
  has_key_idx = ms_bit x_byte 3;
}

-- `Vp8Error`, and what the reader of bytes answers at the end of its input.
pub data Vp8Error : Type 0 where
  seven_bit_picture_id end_of_input : Vp8Error

-- What is read, and the bytes that are left.
abbrev pub Read : Type 0 → Type 0
Read A = Result Vp8Error (A × List ℕ)

abbrev pub read_u8 : List ℕ → Read ℕ
read_u8 [] = err end_of_input
read_u8 (a ∷ rest) = ok (a, rest)

abbrev pub read_u16 : List ℕ → Read ℕ
read_u16 (a ∷ b ∷ rest) = ok (a * 256 + b, rest)
read_u16 _ = err end_of_input

abbrev pub read_slice : ℕ → List ℕ → Read (List ℕ)
read_slice n payload =
    if ltb (length payload) n then err end_of_input else ok (take n payload, drop n payload)

-- The number has 15 bits, with the highest bit of its 16 set.
abbrev pub read_picture_id : Bool → List ℕ → Read (Option ℕ)
read_picture_id false payload = ok (none, payload)
read_picture_id true payload = and_then (read_u8 payload) λ peek.
    if ms_bit peek.0 0
    then (and_then (read_u16 payload) λ r. ok (some (r.0 % 2 ^ 15), r.1))
    else err seven_bit_picture_id

abbrev pub read_tl0_pic_idx : Bool → List ℕ → Read (Option ℕ)
read_tl0_pic_idx false payload = ok (none, payload)
read_tl0_pic_idx true payload = and_then (read_u8 payload) λ r. ok (some r.0, r.1)

abbrev pub skip_tk_byte : Bool → List ℕ → Read (Unit {0})
skip_tk_byte false payload = ok (tt, payload)
skip_tk_byte true payload = and_then (read_u8 payload) λ r. ok (tt, r.1)

-- The extensions: the picture id and the TL0 picture index, where they are there.
abbrev pub read_extensions : Bool → List ℕ → Read (Option ℕ × Option ℕ)
read_extensions false payload = ok ((none, none), payload)
read_extensions true payload = and_then (read_u8 payload) λ x.
    let x_byte = parse_x_byte x.0 in
    and_then (read_picture_id x_byte.has_picture_id x.1) λ picture_id.
      and_then (read_tl0_pic_idx x_byte.has_tl0_pic_idx picture_id.1) λ tl0_pic_idx.
        and_then (skip_tk_byte (x_byte.has_tid || x_byte.has_key_idx) tl0_pic_idx.1)
          λ tk. ok ((picture_id.0, tl0_pic_idx.0), tk.1)

-- `size_from_additional_key_frame_header`, for 7 bytes: 14 bits each, little-endian.
abbrev pub size_from_additional_key_frame_header : List ℕ → Result Vp8Error PixelSize
size_from_additional_key_frame_header (_ ∷ _ ∷ _ ∷ w0 ∷ w1 ∷ h0 ∷ h1 ∷ rest) =
    ok (record { width = (w1 * 256 + w0) % 2 ^ 14; height = (h1 * 256 + h0) % 2 ^ 14 })
size_from_additional_key_frame_header _ = err end_of_input

abbrev pub read_resolution : Bool → List ℕ → Result Vp8Error (Option PixelSize)
read_resolution false payload = ok none
read_resolution true payload =
    and_then (read_slice 7 payload)
      λ r. and_then (size_from_additional_key_frame_header r.0) λ s. ok (some s)

-- Whether it is a key frame, and its resolution.
abbrev pub read_payload_header : Bool → List ℕ → Result Vp8Error (Bool × Option PixelSize)
read_payload_header false payload = ok (false, none)
read_payload_header true payload = and_then (read_slice 3 payload) λ common.
    and_then (read_u8 common.0) λ byte.
      let key_frame = not (ms_bit byte.0 7) in
      and_then (read_resolution key_frame common.1) λ resolution. ok (key_frame, resolution)

-- `ParsedHeader::read`
unfoldable pub read_header : List ℕ → Result Vp8Error ParsedHeader
read_header payload = and_then (read_u8 payload) λ first.
    let byte0 = parse_byte0 first.0 in
    and_then (read_extensions byte0.has_extensions first.1) λ ids.
      and_then (read_payload_header (has_payload_header byte0) ids.1) λ frame. ok (record {
        picture_id = ids.0.0;
        tl0_pic_idx = ids.0.1;
        is_key_frame = frame.0;
        resolution = frame.1;
      })

-- `modify_header`, for at least five bytes. The bitwise or of 16 bits with the highest is a sum.
unfoldable pub modify_header : List ℕ → ℕ → ℕ → List ℕ
modify_header rtp_payload picture_id tl0_pic_idx =
    take 2 rtp_payload
    ++ (be16 (picture_id % 2 ^ 15 + 2 ^ 15) ++ ((tl0_pic_idx ∷ []) ++ drop 5 rtp_payload))

-- The full number, beside the new maximum.
unfoldable pub expand_picture_id : ℕ → ℕ → ℕ × ℕ
expand_picture_id truncated m = expand_truncated_counter truncated m 15

unfoldable pub expand_tl0_pic_idx : ℕ → ℕ → ℕ × ℕ
expand_tl0_pic_idx truncated m = expand_truncated_counter truncated m 8

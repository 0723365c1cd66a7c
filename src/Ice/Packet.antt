-- ===== src/Ice/Packet.antt =====
-- The packets that backend/src/ice.rs writes: `create_binding_request_packet`, the answer
-- `to_binding_response`, and `verify_hmac`. `mac key message` is the crate's HMAC-SHA1 and `crc`
-- its CRC32.
use signal_calling_service.Prelude.{
  ℕ, ◌+◌, ◌-◌, ◌%◌, ◌^◌, bit_xor, Bool, if◌then◌else◌, none, some, List, [], ◌∷◌, ◌++◌, take,
}
use signal_calling_service.Bytes.{be16, be32, slice, overwrite, repeat, round_up_to_multiple_of}
use signal_calling_service.Serialize.{
  Writer, empty, bytes, u16, u32, both, tuple, optional, written_len, to_vec,
}
use signal_calling_service.Ice.{
  BindingRequest, BindingRequestRanges, binding_request_id, binding_response_id, header_len,
  hmac_len, attr_header_len, attr_username, attr_nomination, attr_message_integrity,
  attr_fingerprint, hmac, byte_eq,
}

abbrev pub fingerprint_xor_value : ℕ
fingerprint_xor_value = 1398035790

-- `write_stun_attribute`, for a value of less than 2 ^ 16 bytes (for a longer one it panics).
abbrev pub write_stun_attribute : ℕ → Writer → Writer
write_stun_attribute attribute_id value = tuple (
    u16 attribute_id
    ∷ u16 (written_len value)
    ∷ value
    ∷ bytes (repeat (round_up_to_multiple_of 4 (written_len value) - written_len value) 0)
    ∷ [])

-- `write_len_in_header`
abbrev pub write_len_in_header : ℕ → List ℕ → List ℕ
write_len_in_header len packet = overwrite 2 (be16 (len % 2 ^ 16)) packet

-- `write_value_in_attr`, after a header of this length.
abbrev pub write_value_in_attr : ℕ → ℕ → List ℕ → List ℕ → List ℕ
write_value_in_attr header_len attr_start_relative_to_body value packet =
    overwrite (header_len + attr_start_relative_to_body + attr_header_len) value packet

module _ (mac : List ℕ → List ℕ → List ℕ) (crc : List ℕ → ℕ) where
  -- `FINGERPRINT_XOR_VALUE ^ CRC32.checksum(..)` as bytes.
  abbrev pub fingerprint_of : List ℕ → List ℕ
  fingerprint_of message = be32 (bit_xor fingerprint_xor_value (crc message))

  -- The end of `create_packet`: the length for the hmac, the hmac, the whole length and the
  -- fingerprint are written into the packet, in this order.
  unfoldable pub seal : List ℕ → ℕ → ℕ → ℕ → ℕ → List ℕ → List ℕ
  seal pwd header_len hmaced_attrs_len fingerprinted_attrs_len attrs_len packet =
      let packet1 = write_len_in_header fingerprinted_attrs_len packet in
      let hmac_value = mac pwd (take (header_len + hmaced_attrs_len) packet1) in
      let packet2 = write_value_in_attr header_len hmaced_attrs_len hmac_value packet1 in
      let packet3 = write_len_in_header attrs_len packet2 in
      let fingerprint_value =
        fingerprint_of (take (header_len + fingerprinted_attrs_len) packet3) in
      write_value_in_attr header_len fingerprinted_attrs_len fingerprint_value packet3

  -- `create_packet`
  unfoldable pub create_packet : List ℕ → List ℕ → List ℕ → List ℕ → Bool → List ℕ
  create_packet message_type transaction_id username pwd nominated =
      let user_attr = write_stun_attribute attr_username (bytes username) in
      let nomination =
        if nominated then some (write_stun_attribute attr_nomination empty) else none in
      let hmaced_attrs = both user_attr (optional nomination) in
      let dummy_hmac = write_stun_attribute attr_message_integrity (bytes (repeat hmac_len 0)) in
      let fingerprinted_attrs = both hmaced_attrs dummy_hmac in
      let dummy_fingerprint = write_stun_attribute attr_fingerprint (u32 0) in
      let attrs = both fingerprinted_attrs dummy_fingerprint in
      let header =
        tuple (bytes message_type ∷ u16 (written_len attrs % 2 ^ 16) ∷ bytes transaction_id ∷ []) in
      seal pwd (written_len header) (written_len hmaced_attrs) (written_len fingerprinted_attrs)
        (written_len attrs) (to_vec (both header attrs))

  abbrev pub create_binding_request_packet : List ℕ → List ℕ → List ℕ → Bool → List ℕ
  create_binding_request_packet = create_packet binding_request_id

  -- `calculate_hmac`: the packet up to the attribute, with a length that counts it.
  abbrev pub calculate_hmac : List ℕ → BindingRequestRanges → List ℕ → List ℕ
  calculate_hmac packet ranges pwd = mac pwd (
      slice 0 2 packet
      ++ (be16 ((ranges.hmac.end - header_len) % 2 ^ 16)
          ++ slice 4 (ranges.hmac.start - attr_header_len) packet))

  -- `verify_hmac`: whether the hmac in the request is the one of the password.
  abbrev pub verify_hmac : BindingRequest → List ℕ → Bool
  verify_hmac request pwd =
      byte_eq (calculate_hmac request.packet request.ranges pwd) (hmac request)

  -- `recalculate_hmac_and_fingerprint_of_packet`
  abbrev pub recalculate_hmac_and_fingerprint_of_packet :
      List ℕ → BindingRequestRanges → List ℕ → List ℕ
  recalculate_hmac_and_fingerprint_of_packet packet ranges pwd =
      let with_hmac = overwrite ranges.hmac.start (calculate_hmac packet ranges pwd) packet in
      overwrite ranges.fingerprint.start
        (fingerprint_of (take (ranges.fingerprint.start - attr_header_len) with_hmac)) with_hmac

  -- `to_binding_response`, for a username as long as the request's.
  abbrev pub to_binding_response : BindingRequest → List ℕ → List ℕ → List ℕ
  to_binding_response request username pwd =
      recalculate_hmac_and_fingerprint_of_packet
        (overwrite request.ranges.username.start username
          (overwrite 0 binding_response_id request.packet))
        request.ranges pwd

-- ===== src/Rtp/Packet.antt =====
-- `Packet` of backend/src/rtp/packet.rs: the parsed values of an RTP packet beside its bytes, and
-- the retransmitted form (RTX), whose own sequence number replaces the one that the payload keeps.
-- Instants are nanoseconds. The fields that no part modelled here reads are left out: timestamp,
-- rotation, audio level, dependency descriptor, encrypted and padding_byte_count.
use signal_calling_service.Prelude.{
  ℕ, zero, suc, Option-cases, inl, inr, arith, refl, ◌≡◌, ◌<◌, ◌+◌, ◌-◌, ◌*◌, ◌/◌, ◌%◌, ◌^◌, Bool,
  true, false, Option, none, some, List, [], ◌∷◌, ◌++◌, length, take, drop, ltb, if◌then◌else◌,
  is_some, unwrap_or, bit_or,
}

pub record Packet : Type 0 where
  pub marker : Bool
  pub payload_type_in_header : ℕ
  pub ssrc_in_header : ℕ
  pub seqnum_in_header : ℕ
  pub seqnum_in_payload : Option ℕ
  pub pending_retransmission : Bool
  pub tcc_seqnum : Option ℕ
  pub tcc_seqnum_range : Option (ℕ × ℕ)
  pub payload_start_in_header : ℕ
  pub payload_end_in_header : ℕ
  pub deadline : Option ℕ
  pub serialized : List ℕ

-- 10 and 1 are `RTX_PAYLOAD_TYPE_OFFSET` and `RTX_SSRC_OFFSET`.
abbrev pub to_rtx_payload_type : ℕ → ℕ
to_rtx_payload_type pt = (pt + 10) % 2 ^ 8

abbrev pub from_rtx_payload_type : ℕ → ℕ
from_rtx_payload_type pt = (pt + 2 ^ 8 - 10) % 2 ^ 8

abbrev pub to_rtx_ssrc : ℕ → ℕ
to_rtx_ssrc ssrc = (ssrc + 1) % 2 ^ 32

abbrev pub from_rtx_ssrc : ℕ → ℕ
from_rtx_ssrc ssrc = (ssrc + 2 ^ 32 - 1) % 2 ^ 32

abbrev pub is_rtx : Packet → Bool
is_rtx p = is_some p.seqnum_in_payload

unfoldable pub payload_type : Packet → ℕ
payload_type p =
    if is_rtx p then from_rtx_payload_type p.payload_type_in_header else p.payload_type_in_header

unfoldable pub ssrc : Packet → ℕ
ssrc p = if is_rtx p then from_rtx_ssrc p.ssrc_in_header else p.ssrc_in_header

unfoldable pub seqnum : Packet → ℕ
seqnum p = unwrap_or p.seqnum_in_payload p.seqnum_in_header

abbrev payload_start : Packet → ℕ
payload_start p = if is_rtx p then p.payload_start_in_header + 2 else p.payload_start_in_header

unfoldable pub is_past_deadline : ℕ → Packet → Bool
is_past_deadline now p = elim p.deadline [ none ↦ true | some deadline ↦ ltb deadline now ]

-- The deadline is three seconds (`PACKET_LIFETIME`) after the packet came in.
abbrev pub entry_time : Packet → Option ℕ
entry_time p = elim p.deadline [ none ↦ none | some deadline ↦ some (deadline - 3_000_000_000) ]

-- The size in bits.
unfoldable pub size : Packet → ℕ
size p = length p.serialized * 8

abbrev header : Packet → List ℕ
header p = take (payload_start p) p.serialized

abbrev payload : Packet → List ℕ
payload p = drop (payload_start p) (take p.payload_end_in_header p.serialized)

-- `write_in_header`: bytes from an offset on are replaced.
abbrev pub write_in_header : ℕ → List ℕ → List ℕ → List ℕ
write_in_header at bytes s = take at s ++ bytes ++ drop (at + length bytes) s

abbrev pub be16 : ℕ → List ℕ
be16 n = (n / 2 ^ 8) % 2 ^ 8 ∷ n % 2 ^ 8 ∷ []

abbrev pub be32 : ℕ → List ℕ
be32 n = be16 (n / 2 ^ 16) ++ be16 n

abbrev set_payload_type_in_header : ℕ → Packet → Packet
set_payload_type_in_header pt p = record p {
  payload_type_in_header = pt;
  serialized = write_in_header 1 (bit_or (if p.marker then 2 ^ 7 else 0) pt ∷ []) p.serialized;
}

abbrev set_ssrc_in_header : ℕ → Packet → Packet
set_ssrc_in_header n p = record p {
  ssrc_in_header = n;
  serialized = write_in_header 8 (be32 n) p.serialized;
}

abbrev set_seqnum_in_header : ℕ → Packet → Packet
set_seqnum_in_header n p = record p {
  seqnum_in_header = n;
  serialized = write_in_header 2 (be16 n) p.serialized;
}

-- `get_tcc_seqnum` is called only for a packet with a place for the number: the result says whether.
unfoldable pub set_tcc_seqnum_in_header_if_present : ℕ → Packet → Bool × Packet
set_tcc_seqnum_in_header_if_present n p = elim p.tcc_seqnum_range [
  | none ↦ (false, p)
  | some range ↦ (
    true,
    record p { tcc_seqnum = some n; serialized = write_in_header range.0 (be16 n) p.serialized },
  )
]

abbrev zeros : ℕ → List ℕ
zeros zero = []
zeros (suc n) = 0 ∷ zeros n

-- 16 is `SRTP_AUTH_TAG_LEN`.
unfoldable pub to_rtx : ℕ → Packet → Packet
to_rtx n p =
    if is_rtx p
    then set_seqnum_in_header n p
    else set_seqnum_in_header n (
        set_ssrc_in_header (to_rtx_ssrc p.ssrc_in_header) (
          set_payload_type_in_header (to_rtx_payload_type p.payload_type_in_header) (record p {
            payload_type_in_header = to_rtx_payload_type p.payload_type_in_header;
            ssrc_in_header = to_rtx_ssrc p.ssrc_in_header;
            seqnum_in_header = n;
            seqnum_in_payload = some p.seqnum_in_header;
            payload_end_in_header = p.payload_end_in_header + 2;
            serialized = header p ++ be16 p.seqnum_in_header ++ payload p ++ zeros 16;
          })))

-- The retransmitted form of a packet, whatever number it gets, stands for the same packet: payload
-- type, SSRC, sequence number and deadline are read from it as from the original.
pub to_rtx-keeps_identity :
    (n : ℕ) (p : Packet)
    → p.payload_type_in_header < 2 ^ 8
    → p.ssrc_in_header < 2 ^ 32
    → (payload_type (to_rtx n p) ≡ payload_type p)
      × (ssrc (to_rtx n p) ≡ ssrc p)
      × (seqnum (to_rtx n p) ≡ seqnum p)
      × (is_rtx (to_rtx n p) ≡ true)
unfolding to_rtx payload_type ssrc seqnum
to_rtx-keeps_identity n p pt s = elim (Option-cases p.seqnum_in_payload) [
  | inl plain ↦ rw plain (omega arith, omega arith, refl, refl)
  | inr (m, again) ↦ rw again (refl, refl, refl, refl)
]

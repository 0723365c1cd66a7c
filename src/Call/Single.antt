-- ===== src/Call/Single.antt =====
-- `SingleSsrcRtpForwarder` of backend/src/call.rs: rewriting the sequence numbers of one stream.
pub mod Order
use signal_calling_service.Prelude.{
  ℕ, ◌+◌, ◌-◌, ◌%◌, ◌^◌, Option, none, some, List, [], ◌∷◌, ltb, if◌then◌else◌, max, ◌>>=◌, u64_mod,
  checked_sub, checked_add,
}

pub record SingleSsrcRtpForwarder : Type 0 where
  pub first_incoming : ℕ
  pub first_outgoing : ℕ
  pub max_outgoing : ℕ

abbrev pub half_cycle : ℕ
half_cycle = 2 ^ 15

abbrev pub default_forwarder : SingleSsrcRtpForwarder
default_forwarder = record { first_incoming = 0; first_outgoing = 0; max_outgoing = 0 }

-- The code after the first `?`: a gap of half a cycle or more resets the offset.
abbrev pub place : SingleSsrcRtpForwarder → ℕ → ℕ → Option ℕ × SingleSsrcRtpForwarder
place s incoming outgoing =
    if ltb ((s.max_outgoing + half_cycle - 1) % u64_mod) outgoing
    then elim (checked_add s.max_outgoing 2) [
      | none ↦ (none, s)
      | some fresh ↦ (
        some fresh,
        record { first_incoming = incoming; first_outgoing = fresh; max_outgoing = fresh },
      )
    ]
    else (some outgoing, record s { max_outgoing = max s.max_outgoing outgoing })

-- `forward_rtp`: the outgoing number, or none when the packet is not forwarded.
unfoldable pub forward_rtp : SingleSsrcRtpForwarder → ℕ → Option ℕ × SingleSsrcRtpForwarder
forward_rtp s incoming =
    elim (checked_sub incoming s.first_incoming >>= λ d. checked_add s.first_outgoing d) [
      | none ↦ (none, s)
      | some outgoing ↦ place s incoming outgoing
    ]

-- The packets forwarded for a sequence of incoming numbers, the latest first, with the numbers
-- that they arrived and left under.
pub record Forwarded : Type 0 where
  pub arrived : ℕ
  pub left : ℕ

abbrev pub note : ℕ → Option ℕ → List Forwarded → List Forwarded
note incoming none h = h
note incoming (some outgoing) h = record { arrived = incoming; left = outgoing } ∷ h

pub forward_all :
    SingleSsrcRtpForwarder → List Forwarded → List ℕ → List Forwarded × SingleSsrcRtpForwarder
forward_all s h [] = (h, s)
forward_all s h (i ∷ is) = let (o, s') = forward_rtp s i in forward_all s' (note i o h) is

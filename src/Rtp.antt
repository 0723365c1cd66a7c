-- ===== src/Rtp.antt =====
-- backend/src/rtp.rs: sequence numbers, timestamps and frame numbers of RTP packets.
pub mod Packet
pub mod Nack
pub mod Rtx
use signal_calling_service.Prelude.{ℕ, Bool, Option}
use signal_calling_service.Counters.{expand_truncated_counter}
use signal_calling_service.Vp8.{PixelSize}

unfoldable pub expand_seqnum : ℕ → ℕ → ℕ × ℕ
expand_seqnum seqnum max_seqnum = expand_truncated_counter seqnum max_seqnum 16

unfoldable pub expand_timestamp : ℕ → ℕ → ℕ × ℕ
expand_timestamp timestamp max_timestamp = expand_truncated_counter timestamp max_timestamp 32

unfoldable pub expand_frame_number : ℕ → ℕ → ℕ × ℕ
expand_frame_number frame_number max_frame_number =
    expand_truncated_counter frame_number max_frame_number 16

-- `VideoRotation` of backend/src/rtp.rs.
pub data VideoRotation : Type 0 where
  no_rotation clockwise90 clockwise180 clockwise270 : VideoRotation

-- `DependencyDescriptor` of backend/src/rtp/packet.rs.
pub record DependencyDescriptor : Type 0 where
  pub truncated_frame_number : Option ℕ
  pub is_key_frame : Bool
  pub resolution : Option PixelSize

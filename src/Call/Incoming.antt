-- ===== src/Call/Incoming.antt =====
-- A media packet as a call sees it, the errors, and what a video packet tells of its sender, in
-- backend/src/call.rs.
use signal_calling_service.Prelude.{
  ℕ, Bool, true, false, not, ◌&&◌, ◌||◌, ◌==◌, Option, none, some, unwrap_or, List, Result, ok, err,
  ok_or, and_then,
}
use signal_calling_service.Vp8.{PixelSize, read_header}
use signal_calling_service.Rtp.{
  DependencyDescriptor, VideoRotation, no_rotation, clockwise90, clockwise180, clockwise270,
}
use signal_calling_service.Rates.{push_bytes}
use signal_calling_service.Call.Simulcast.{VideoHeader, vp8, dependency_descriptor, IncomingRtp}
use signal_calling_service.Call.Ssrc.{LayerId, video0, video1, video2, layer_from_ssrc}
use signal_calling_service.Call.State.{IncomingVideoState, Client}

-- What a call reads and writes of an `rtp::Packet`, through its accessors.
pub record MediaPacket : Type 0 where
  pub rtp : IncomingRtp
  pub open rtp use *
  pub payload_type : ℕ
  pub audio_level : Option ℕ
  pub rotation : Option VideoRotation
  pub descriptor : Option DependencyDescriptor
  pub size_bytes : ℕ
  pub payload : List ℕ

-- `rewrite`
abbrev pub rewrite : MediaPacket → ℕ → ℕ → ℕ → MediaPacket
rewrite p ssrc seqnum timestamp = record p {
  rtp = record { ssrc = ssrc; seqnum = seqnum; timestamp = timestamp };
}

abbrev pub vp8_payload_type : ℕ
vp8_payload_type = 108

-- `Error`; the reason of a malformed header of mrp is left out.
pub data Error : Type 0 where
  unauthorized_rtp_ssrc : ℕ → ℕ → Error
  invalid_vp8_header invalid_rtp_layer_id : Error
  unknown_demux_id : ℕ → Error
  invalid_client_to_server_protobuf : Error
  leave invalid_mrp_header : Error

-- `IncomingVideoState::apply_rotation` and `clear_resolution`.
abbrev pub rotated_height : VideoRotation → PixelSize → ℕ
rotated_height no_rotation size = size.height
rotated_height clockwise90 size = size.width
rotated_height clockwise180 size = size.height
rotated_height clockwise270 size = size.width

abbrev pub apply_rotation : VideoRotation → IncomingVideoState → IncomingVideoState
apply_rotation rotation v = elim v.original_resolution [
  | none ↦ v
  | some size ↦ record v { height = some (rotated_height rotation size) }
]

abbrev pub clear_resolution : IncomingVideoState → IncomingVideoState
clear_resolution v = record v { original_resolution = none; height = none }

abbrev pub resolution : VideoHeader → Option PixelSize
resolution (vp8 h) = h.resolution
resolution (dependency_descriptor d) = d.resolution

abbrev pub same_size : Option PixelSize → Option PixelSize → Bool
same_size none none = true
same_size none (some b) = false
same_size (some a) none = false
same_size (some a) (some b) = (a.width == b.width) && (a.height == b.height)

abbrev pub degrees : VideoRotation → ℕ
degrees no_rotation = 0
degrees clockwise90 = 90
degrees clockwise180 = 180
degrees clockwise270 = 270

abbrev pub or_else {ℓ} : {A : Type ℓ} → Option A → Option A → Option A
or_else none d = d
or_else (some a) d = some a

-- The state of a layer, and a change to it.
abbrev pub incoming_video : LayerId → Client → Option IncomingVideoState
incoming_video video0 c = some c.incoming_video0
incoming_video video1 c = some c.incoming_video1
incoming_video video2 c = some c.incoming_video2
incoming_video _ c = none

abbrev pub set_incoming_video : LayerId → IncomingVideoState → Client → Client
set_incoming_video video0 v c = record c { incoming_video0 = v }
set_incoming_video video1 v c = record c { incoming_video1 = v }
set_incoming_video video2 v c = record c { incoming_video2 = v }
set_incoming_video _ v c = c

abbrev pub rotate_all : Client → Client
rotate_all c = record c {
  incoming_video0 = apply_rotation c.video_rotation c.incoming_video0;
  incoming_video1 = apply_rotation c.video_rotation c.incoming_video1;
  incoming_video2 = apply_rotation c.video_rotation c.incoming_video2;
}

-- The higher resolutions are cleared.
abbrev pub clear_higher : LayerId → Client → Client
clear_higher video0 c = record c {
  incoming_video1 = clear_resolution c.incoming_video1;
  incoming_video2 = clear_resolution c.incoming_video2;
}
clear_higher video1 c = record c { incoming_video2 = clear_resolution c.incoming_video2 }
clear_higher _ c = c

-- `parse_vp8_header_and_update_incoming_video_rate_and_resolution`, in two: the header, and what
-- becomes of the sender, when the layer is one of video.
abbrev pub video_header : MediaPacket → Result Error VideoHeader
video_header p = elim p.descriptor [
  | some d ↦ ok (dependency_descriptor d)
  | none ↦ elim (read_header p.payload) [ ok h ↦ ok (vp8 h) | err e ↦ err invalid_vp8_header ]
]

abbrev pub received : MediaPacket → VideoHeader → ℕ → IncomingVideoState → IncomingVideoState
received p h now v = record v {
  rate_tracker = push_bytes p.size_bytes now v.rate_tracker;
  original_resolution = or_else (resolution h) v.original_resolution;
}

abbrev pub rotate_sender : MediaPacket → Client → Client
rotate_sender p c = record c { video_rotation = unwrap_or p.rotation c.video_rotation }

-- Whether the resolution or the rotation changed.
abbrev pub looks_different : MediaPacket → IncomingVideoState → IncomingVideoState → Client → Bool
looks_different p old new sender =
    not (same_size old.original_resolution new.original_resolution)
    || not (degrees sender.video_rotation == degrees (unwrap_or p.rotation sender.video_rotation))

abbrev pub settle : Bool → LayerId → Client → Client
settle false layer c = c
settle true layer c = clear_higher layer (rotate_all c)

abbrev pub update_incoming :
    MediaPacket → VideoHeader → ℕ → LayerId → IncomingVideoState → Client → Client
update_incoming p h now layer v sender =
    settle (looks_different p v (received p h now v) sender) layer
      (rotate_sender p (set_incoming_video layer (received p h now v) sender))

unfoldable pub update_incoming_video :
    MediaPacket → ℕ → Client → Result Error (VideoHeader × Client)
update_incoming_video p now sender = and_then (video_header p) λ h.
    and_then (ok_or (layer_from_ssrc p.ssrc) invalid_rtp_layer_id) λ layer.
      and_then (ok_or (incoming_video layer sender) invalid_rtp_layer_id)
        λ v. ok (h, update_incoming p h now layer v sender)

-- ===== src/Call/Messages.antt =====
-- The messages between devices and the server, of backend/protobuf/group_call.proto, as the generated code hands
-- them to backend/src/call.rs. A field may be missing.
use signal_calling_service.Prelude.{
  ℕ, Bool, true, false, ◌&&◌, Option, none, some, List, [], ◌∷◌, opt_eq,
}

pub record VideoRequest : Type 0 where
  pub height : Option ℕ
  pub demux_id : Option ℕ

pub record VideoRequestMessage : Type 0 where
  pub requests : List VideoRequest
  pub max_kbps : Option ℕ
  pub active_speaker_height : Option ℕ

pub record RaiseHand : Type 0 where
  pub raise : Option Bool
  pub seqnum : Option ℕ

-- `GenericAdminAction` is its target.
pub record DeviceToSfu : Type 0 where
  pub video_request : Option VideoRequestMessage
  pub leave : Bool
  pub approve : List (Option ℕ)
  pub deny : List (Option ℕ)
  pub remove : List (Option ℕ)
  pub block : List (Option ℕ)
  pub raise_hand : Option RaiseHand
  pub has_mrp_header : Bool

-- `SfuToDevice`, without the acknowledgements of the reliable stream. `current_devices` are the
-- senders of video with the heights that are allocated, `raised_hands` the devices with their
-- numbers and the number of the receiver's own.
pub record SfuToDevice : Type 0 where
  pub device_joined_or_left : Bool
  pub speaker : Option ℕ
  pub current_devices : Option (List (ℕ × ℕ))
  pub stats : Option (ℕ × (ℕ × ℕ))
  pub removed : Bool
  pub raised_hands : Option (List (ℕ × ℕ) × ℕ)

abbrev pub nothing_to_say : SfuToDevice
nothing_to_say = record {
  device_joined_or_left = false;
  speaker = none;
  current_devices = none;
  stats = none;
  removed = false;
  raised_hands = none;
}

-- The derived equality of requests for video.
abbrev pub same_requests : List VideoRequest → List VideoRequest → Bool
same_requests [] [] = true
same_requests [] (r ∷ rs) = false
same_requests (q ∷ qs) [] = false
same_requests (q ∷ qs) (r ∷ rs) =
    opt_eq q.height r.height && (opt_eq q.demux_id r.demux_id && same_requests qs rs)

abbrev pub same_video_request : Option VideoRequestMessage → Option VideoRequestMessage → Bool
same_video_request none none = true
same_video_request none (some r) = false
same_video_request (some q) none = false
same_video_request (some q) (some r) =
    same_requests q.requests r.requests
    && (opt_eq q.max_kbps r.max_kbps && opt_eq q.active_speaker_height r.active_speaker_height)

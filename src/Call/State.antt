-- ===== src/Call/State.antt =====
-- `Call`, `Client` and `NonParticipantClient` of backend/src/call.rs, without their
-- reliable streams of messages, statistics and what only logging reads. User ids are compared only,
-- so they are numbers. Times are nanoseconds since some instant at least a second in the past.
use signal_calling_service.Prelude.{
  ℕ, Bool, true, not, Option, none, List, [], ◌∷◌, map, ◌==◌, if◌then◌else◌, min, unwrap_or, any,
  keep,
}
use signal_calling_service.Vp8.{PixelSize}
use signal_calling_service.Rtp.{VideoRotation, no_rotation}
use signal_calling_service.Rates.{DataRateTracker, new_tracker}
use signal_calling_service.Audio.{LevelsTracker, default_levels}
use signal_calling_service.Call.Messages.{VideoRequestMessage}
use signal_calling_service.Call.Single.{SingleSsrcRtpForwarder}
use signal_calling_service.Call.Simulcast.{SimulcastForwarder}
use signal_calling_service.Call.Allocation.{AllocatableVideoLayer}

pub data RegionRelation : Type 0 where
  unknown same_region same_area different_area : RegionRelation

pub data ClientStatus : Type 0 where
  active pending blocked : ClientStatus

pub record NonParticipantClient : Type 0 where
  pub demux_id : ℕ
  pub user_id : ℕ
  pub is_admin : Bool
  pub region_relation : RegionRelation
  pub next_server_to_client_data_rtp_seqnum : ℕ

-- The resolution ignores the rotation, the height takes it into account.
pub record IncomingVideoState : Type 0 where
  pub rate_tracker : DataRateTracker
  pub original_resolution : Option PixelSize
  pub height : Option ℕ

abbrev pub as_allocatable_layer : IncomingVideoState → AllocatableVideoLayer
as_allocatable_layer v = record {
  incoming_rate = unwrap_or v.rate_tracker.stable_rate 0;
  incoming_height = unwrap_or v.height 0;
}

pub record Client : Type 0 where
  pub info : NonParticipantClient
  pub open info use *
  pub incoming_video0 : IncomingVideoState
  pub incoming_video1 : IncomingVideoState
  pub incoming_video2 : IncomingVideoState
  pub video_rotation : VideoRotation
  pub incoming_audio_levels : LevelsTracker
  pub became_active_speaker : Option ℕ
  pub video_request_proto : Option VideoRequestMessage
  pub requested_height_by_demux_id : List (ℕ × ℕ)
  pub active_speaker_height : ℕ
  pub target_send_rate : ℕ
  pub current_generation_min_target_send_rate : ℕ
  pub old_generation_min_target_send_rate : ℕ
  pub next_min_target_generation_update_time : ℕ
  pub outgoing_queue_drain_rate : ℕ
  pub requested_max_send_rate : ℕ
  pub send_rate_allocated : ℕ
  pub requested_base_rate : ℕ
  pub ideal_send_rate : ℕ
  pub allocated_send_rate : ℕ
  pub padding_ssrc : Option ℕ
  pub audio_forwarder_by_sender_demux_id : List (ℕ × SingleSsrcRtpForwarder)
  pub video_forwarder_by_sender_demux_id : List (ℕ × SimulcastForwarder)
  pub data_forwarder_by_sender_demux_id : List (ℕ × SingleSsrcRtpForwarder)
  pub allocated_height_by_sender_demux_id : List (ℕ × ℕ)

abbrev no_video : IncomingVideoState
no_video = record { rate_tracker = new_tracker; original_resolution = none; height = none }

-- `Client::new`.
unfoldable pub new_client : NonParticipantClient → ℕ → ℕ → ℕ → Client
new_client pending_client_info initial_target_send_rate requested_max_send_rate now = record {
  info = pending_client_info;
  incoming_video0 = no_video;
  incoming_video1 = no_video;
  incoming_video2 = no_video;
  video_rotation = no_rotation;
  incoming_audio_levels = default_levels;
  became_active_speaker = none;
  video_request_proto = none;
  requested_height_by_demux_id = [];
  active_speaker_height = 0;
  target_send_rate = initial_target_send_rate;
  current_generation_min_target_send_rate = initial_target_send_rate;
  old_generation_min_target_send_rate = initial_target_send_rate;
  next_min_target_generation_update_time = now;
  outgoing_queue_drain_rate = 0;
  requested_max_send_rate = requested_max_send_rate;
  send_rate_allocated = now;
  requested_base_rate = 0;
  ideal_send_rate = 0;
  allocated_send_rate = 0;
  padding_ssrc = none;
  audio_forwarder_by_sender_demux_id = [];
  video_forwarder_by_sender_demux_id = [];
  data_forwarder_by_sender_demux_id = [];
  allocated_height_by_sender_demux_id = [];
}

abbrev pub min_target_send_rate : Client → ℕ
min_target_send_rate c =
    min c.current_generation_min_target_send_rate c.old_generation_min_target_send_rate

-- `ApprovedUsers` of backend/src/call/approval_persistence.rs, up to its background task.
pub record ApprovedUsers : Type 0 where
  pub users : List ℕ
  pub modified : Bool

pub record RaisedHand : Type 0 where
  pub demux_id : ℕ
  pub raise : Bool

pub record CallTimeStats : Type 0 where
  pub empty : ℕ
  pub solo : ℕ
  pub pair : ℕ
  pub many : ℕ

pub record Call : Type 0 where
  pub new_clients_require_approval : Bool
  pub persist_approval_for_all_users_who_join : Bool
  pub active_speaker_message_interval : ℕ
  pub initial_target_send_rate : ℕ
  pub default_requested_max_send_rate : ℕ
  pub clients : List Client
  pub pending_clients : List NonParticipantClient
  pub removed_clients : List NonParticipantClient
  pub client_added_or_removed : ℕ
  pub clients_update_sent : ℕ
  pub approved_users : ApprovedUsers
  pub denied_users : List ℕ
  pub blocked_users : List ℕ
  pub active_speaker_id : Option ℕ
  pub active_speaker_calculated : ℕ
  pub active_speaker_update_sent : ℕ
  pub raised_hands : Option (List RaisedHand)
  pub raised_hands_seqnums : List (ℕ × ℕ)
  pub stats_update_sent : ℕ
  pub removed_clients_update_sent : ℕ
  pub raised_hands_sent : ℕ
  pub key_frame_requests_sent : ℕ
  pub key_frame_request_sent_by_ssrc : List (ℕ × ℕ)
  pub call_time : CallTimeStats

-- A `HashSet` of users: `contains`, `insert`, `remove`.
abbrev pub contains : ℕ → List ℕ → Bool
contains u = any (λ w. w == u)

abbrev pub set_insert : ℕ → List ℕ → List ℕ
set_insert u us = if contains u us then us else u ∷ us

abbrev pub set_remove : ℕ → List ℕ → List ℕ
set_remove u = keep (λ w. not (w == u))

-- `ApprovedUsers::insert` and `remove` note a change.
unfoldable pub approve : ℕ → ApprovedUsers → ApprovedUsers
approve u a = if contains u a.users then a else record { users = u ∷ a.users; modified = true }

unfoldable pub revoke : ℕ → ApprovedUsers → ApprovedUsers
revoke u a =
    if contains u a.users then record { users = set_remove u a.users; modified = true } else a

abbrev pub identities : List Client → List NonParticipantClient
identities = map (λ c. c.info)

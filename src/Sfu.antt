-- ===== src/Sfu.antt =====
-- The registry of backend/src/sfu.rs: its calls and connections, how a client joins and leaves, how
-- a packet finds its connection, and the removal of inactive connections in `tick`. Call ids are
-- compared only, so they are numbers. The key agreement (SM2, HKDF), HMAC and CRC are other
-- crates' and parameters; metrics and logs are not part of the model.
pub mod Joining
pub mod Packets
pub mod Removal
pub mod Signaling
mod Examples
use signal_calling_service.Prelude.{
  ℕ, ◌+◌, ◌-◌, Bool, true, false, not, ◌&&◌, ◌||◌, ◌==◌, leb, if◌then◌else◌, any, map, Option, none,
  some, unwrap_or, List, [], ◌∷◌, ◌++◌, Result, ok, err, and_then, ok_or, length, ◌>>=◌,
}
use signal_calling_service.Prelude.Dict
use signal_calling_service.Collections.TwoGeneration.{
  TwoGenerationCache, map_get, map_insert, map_remove, insert_without_removing_old, get,
}
use signal_calling_service.Ice.{
  BindingRequest, ParseError, byte_eq, join_username, parse, looks_like_header, username,
}
use signal_calling_service.Connection.{
  Connection, Error, SocketLocator, addr_eq, new_connection, inactive, handle_ice_binding_request,
}
use signal_calling_service.Call.State.{
  Call, ClientStatus, RegionRelation, Client, NonParticipantClient, ApprovedUsers, CallTimeStats,
}
use signal_calling_service.Call.Intervals.{
  raised_hands_message_interval, removed_clients_update_interval,
  active_speaker_calculation_interval, key_frame_request_calculation_interval,
}
use signal_calling_service.Call.Members.{add_client, drop_client, has_demux}

-- `ConnectionId`
pub record ConnectionId : Type 0 where
  pub call_id : ℕ
  pub demux_id : ℕ

abbrev pub same_id : ConnectionId → ConnectionId → Bool
same_id a b = (a.call_id == b.call_id) && (a.demux_id == b.demux_id)

-- The part of the configuration that is read here, with durations in nanoseconds.
pub record Config : Type 0 where
  pub initial_target_send_rate : ℕ
  pub default_requested_max_send_rate : ℕ
  pub persist_approval_for_all_users_who_join : Bool
  pub active_speaker_message_interval : ℕ
  pub inactivity_timeout : ℕ
  pub inactivity_check_interval : ℕ

pub data SfuError : Type 0 where
  duplicate_demux_id_detected : SfuError
  unknown_address : SocketLocator → SfuError
  missing_connection : ℕ → ℕ → SfuError
  parse_ice_binding_request : ParseError → SfuError
  ice_binding_request_unknown_username : List ℕ → SfuError
  connection_error : Error → SfuError
  crypto_error : SfuError

-- A call with what `Call` keeps of its creation.
pub record Sfu : Type 0 where
  pub config : Config
  pub call_by_call_id : List (ℕ × Call)
  pub connection_by_id : List (ConnectionId × Connection)
  pub connection_id_by_ice_request_username : List (List ℕ × ConnectionId)
  pub connection_id_by_address : TwoGenerationCache SocketLocator ConnectionId
  pub activity_checked : ℕ

-- `Call::new`, with the approved users that the caller knows.
abbrev pub new_call : Bool → Config → ℕ → List ℕ → Call
new_call new_clients_require_approval config now approved_users = record {
  new_clients_require_approval = new_clients_require_approval;
  persist_approval_for_all_users_who_join = config.persist_approval_for_all_users_who_join;
  active_speaker_message_interval = config.active_speaker_message_interval;
  initial_target_send_rate = config.initial_target_send_rate;
  default_requested_max_send_rate = config.default_requested_max_send_rate;
  clients = [];
  pending_clients = [];
  removed_clients = [];
  client_added_or_removed = now;
  clients_update_sent = now;
  approved_users = record { users = approved_users; modified = false };
  denied_users = [];
  blocked_users = [];
  active_speaker_id = none;
  active_speaker_calculated = now - active_speaker_calculation_interval;
  active_speaker_update_sent = now;
  raised_hands = none;
  raised_hands_seqnums = [];
  stats_update_sent = now;
  removed_clients_update_sent = now - removed_clients_update_interval;
  raised_hands_sent = now - raised_hands_message_interval;
  key_frame_requests_sent = now - key_frame_request_calculation_interval;
  key_frame_request_sent_by_ssrc = [];
  call_time = record { empty = 0; solo = 0; pair = 0; many = 0 };
}

-- `Call::has_client`
abbrev pub has_client : ℕ → Call → Bool
has_client id call =
    any (λ c. c.demux_id == id) call.clients
    || (any (has_demux id) call.pending_clients || any (has_demux id) call.removed_clients)

-- `Call::is_admin`
abbrev pub is_admin : ℕ → Call → Bool
is_admin user_id call = any (λ c. c.is_admin && (c.user_id == user_id)) call.clients

-- `Call::get_client_ids` and `Call::get_pending_client_ids`
abbrev pub get_client_ids : Call → List (ℕ × ℕ)
get_client_ids call = map (λ c. (c.demux_id, c.user_id)) call.clients

abbrev pub get_pending_client_ids : Bool → Call → List (ℕ × Option ℕ)
get_pending_client_ids include_user_ids call =
    map (λ c. (c.demux_id, (if include_user_ids then some c.user_id else none)))
      call.pending_clients

-- `CallSignalingInfo`, without the creator and the time of creation.
pub record CallSignalingInfo : Type 0 where
  pub size : ℕ
  pub client_ids : List (ℕ × ℕ)
  pub pending_client_ids : List (ℕ × Option ℕ)

-- `user_id.map_or(false, ..)`
abbrev pub includes_user_ids : Option ℕ → Call → Bool
includes_user_ids none call = false
includes_user_ids (some u) call = is_admin u call

abbrev pub signaling_info : Option ℕ → Call → CallSignalingInfo
signaling_info user_id call = record {
  size = length call.clients;
  client_ids = get_client_ids call;
  pending_client_ids = get_pending_client_ids (includes_user_ids user_id call) call;
}

-- `get_call_signaling_info`
abbrev pub get_call_signaling_info : ℕ → Option ℕ → Sfu → Option CallSignalingInfo
get_call_signaling_info call_id user_id sfu =
    Dict.get call_id sfu.call_by_call_id >>= λ call. some (signaling_info user_id call)

abbrev pub find_connection : ConnectionId → Sfu → Result SfuError (ConnectionId × Connection)
find_connection id sfu =
    and_then
      (ok_or (map_get same_id id sfu.connection_by_id) (missing_connection id.call_id id.demux_id))
      λ c. ok (id, c)

-- `get_connection_from_address`
abbrev pub get_connection_from_address :
    SocketLocator → Sfu → Result SfuError (ConnectionId × Connection)
get_connection_from_address address sfu =
    and_then (ok_or (get addr_eq address sfu.connection_id_by_address) (unknown_address address))
      λ id. find_connection id sfu

-- `get_connection_from_ice_request_username`
abbrev pub get_connection_from_ice_request_username :
    List ℕ → Sfu → Result SfuError (ConnectionId × Connection)
get_connection_from_ice_request_username name sfu =
    and_then
      (ok_or (map_get byte_eq name sfu.connection_id_by_ice_request_username)
        (ice_binding_request_unknown_username name))
      λ id. find_connection id sfu

-- A client that asks to join.
pub record Join : Type 0 where
  pub call_id : ℕ
  pub user_id : ℕ
  pub demux_id : ℕ
  pub server_ice_ufrag : List ℕ
  pub server_ice_pwd : List ℕ
  pub client_ice_ufrag : List ℕ
  pub client_dhe_public_key : List ℕ
  pub region_relation : RegionRelation
  pub new_clients_require_approval : Bool
  pub is_admin : Bool
  pub approved_users : Option (List ℕ)

-- ===== src/Sfu/Joining.antt =====
-- Joining and leaving in backend/src/sfu.rs: `get_or_create_call_and_add_client` and
-- `remove_client_from_call`.
pub mod Halfway
use signal_calling_service.Prelude.{
  ℕ, Bool, true, false, if◌then◌else◌, Option, none, some, unwrap_or, List, [], Result, ok, err,
}
use signal_calling_service.Prelude.Dict
use signal_calling_service.Collections.TwoGeneration.{map_get, map_insert, map_remove}
use signal_calling_service.Ice.{byte_eq, join_username}
use signal_calling_service.Connection.{Connection, new_connection}
use signal_calling_service.Call.State.{Call, ClientStatus}
use signal_calling_service.Call.Members.{add_client, drop_client}
use signal_calling_service.Sfu.{
  Sfu, SfuError, ConnectionId, Join, same_id, new_call, has_client, duplicate_demux_id_detected,
}

-- The call that the client joins: the one there is, or a new one.
abbrev pub joined_call : ℕ → Join → Sfu → Call
joined_call now j sfu =
    unwrap_or (Dict.get j.call_id sfu.call_by_call_id)
      (new_call j.new_clients_require_approval sfu.config now (unwrap_or j.approved_users []))

abbrev pub put_call : ℕ → Call → Sfu → Sfu
put_call call_id call sfu = record sfu {
  call_by_call_id = Dict.insert call_id call sfu.call_by_call_id;
}

abbrev pub put_connection : ConnectionId → Connection → Sfu → Sfu
put_connection id c sfu = record sfu {
  connection_by_id = map_insert same_id id c sfu.connection_by_id;
  connection_id_by_ice_request_username =
      map_insert byte_eq c.request_username id sfu.connection_id_by_ice_request_username;
}

-- The connection of a client that joins, with the secret that it shares with the server.
abbrev pub connection_for : ℕ → Join → List ℕ → Sfu → Connection
connection_for now j shared_secret sfu =
    new_connection (join_username j.client_ice_ufrag j.server_ice_ufrag)
      (join_username j.server_ice_ufrag j.client_ice_ufrag) j.server_ice_pwd shared_secret
      sfu.config.inactivity_timeout now

abbrev pub id_of : Join → ConnectionId
id_of j = record { call_id = j.call_id; demux_id = j.demux_id }

-- `agree key`: the server's new public key and the secret it shares with the client's, or the
-- error of the step that failed. `now` is read before the call's lock is taken, `locked` after.
module _ (scale : ℕ → ℕ) (agree : List ℕ → Result SfuError (List ℕ × List ℕ)) where
  -- What follows the client's addition to the call.
  abbrev pub connect :
      ℕ
      → Join
      → ClientStatus
      → Result SfuError (List ℕ × List ℕ)
      → Sfu
      → Result SfuError (List ℕ × ClientStatus) × Sfu
  connect now j status (err e) sfu = (err e, sfu)
  connect now j status (ok (key, shared_secret)) sfu =
      (ok (key, status), put_connection (id_of j) (connection_for now j shared_secret sfu) sfu)

  unfoldable pub get_or_create_call_and_add_client :
      ℕ → ℕ → Join → Sfu → Result SfuError (List ℕ × ClientStatus) × Sfu
  get_or_create_call_and_add_client now locked j sfu =
      let call = joined_call now j sfu in
      let added = add_client scale j.demux_id j.user_id j.is_admin j.region_relation locked call in
      if has_client j.demux_id call
      then (err duplicate_demux_id_detected, put_call j.call_id call sfu)
      else connect now j added.0 (agree j.client_dhe_public_key) (put_call j.call_id added.1 sfu)

  -- `remove_connection`
  abbrev pub forget_connection : ConnectionId → Option Connection → Sfu → Sfu
  forget_connection id none sfu = sfu
  forget_connection id (some c) sfu = record sfu {
    connection_by_id = map_remove same_id id sfu.connection_by_id;
    connection_id_by_ice_request_username =
        map_remove byte_eq c.request_username sfu.connection_id_by_ice_request_username;
  }

  abbrev pub remove_connection : ConnectionId → Sfu → Sfu
  remove_connection id sfu = forget_connection id (map_get same_id id sfu.connection_by_id) sfu

  abbrev pub drop_from_call : ℕ → ConnectionId → Option Call → Sfu → Sfu
  drop_from_call now id none sfu = sfu
  drop_from_call now id (some call) sfu =
      put_call id.call_id (drop_client scale id.demux_id now call) sfu

  unfoldable pub remove_client_from_call : ℕ → ConnectionId → Sfu → Sfu
  remove_client_from_call now id sfu =
      remove_connection id (drop_from_call now id (Dict.get id.call_id sfu.call_by_call_id) sfu)

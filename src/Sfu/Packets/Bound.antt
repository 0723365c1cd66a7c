-- ===== src/Sfu/Packets/Bound.antt =====
-- Which packets bind an address to a connection in backend/src/sfu.rs.
use signal_calling_service.Prelude.{ℕ, ◌≡◌, true, some, List, ok, err}
use signal_calling_service.Collections.TwoGeneration.{insert_without_removing_old}
use signal_calling_service.Ice.{BindingRequest, username, parse}
use signal_calling_service.Ice.Packet.{verify_hmac}
use signal_calling_service.Connection.{Connection, SocketLocator, addr_eq}
use signal_calling_service.Sfu.{Sfu, ConnectionId, get_connection_from_ice_request_username}
use signal_calling_service.Sfu.Packets.{Handled}

module _ (mac : List ℕ → List ℕ → List ℕ) (crc : List ℕ → ℕ) where
  -- What became of a packet from an address.
  abbrev pub Bound : SocketLocator → List ℕ → Sfu → Handled → Type 0
  Bound addr packet sfu (err e, after) =
      (after.connection_id_by_address ≡ sfu.connection_id_by_address)
      × (after.connection_id_by_ice_request_username ≡ sfu.connection_id_by_ice_request_username)
      × (after.call_by_call_id ≡ sfu.call_by_call_id)
  Bound addr packet sfu (ok (response, to), after) =
      (request : BindingRequest) × (id : ConnectionId) × (c : Connection) × (parse packet
        ≡ some (ok request))
      × (get_connection_from_ice_request_username (username request) sfu ≡ ok (id, c))
      × (verify_hmac mac crc request c.pwd ≡ true)
      × (to ≡ addr)
      × (after.connection_id_by_address
          ≡ insert_without_removing_old addr_eq addr id sfu.connection_id_by_address)

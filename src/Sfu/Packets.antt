-- ===== src/Sfu/Packets.antt =====
-- The branch of `handle_packet` in backend/src/sfu.rs for ICE binding requests.
pub mod Reaches
pub mod EndToEnd
pub mod Bound
use signal_calling_service.Prelude.{
  ℕ, List, [], ◌∷◌, Option, none, some, if◌then◌else◌, Bool, true, false, Result, ok, err,
}
use signal_calling_service.Collections.TwoGeneration.{map_insert, insert_without_removing_old}
use signal_calling_service.Ice.{BindingRequest, ParseError, parse, looks_like_header, username}
use signal_calling_service.Connection.{
  Connection, Error, SocketLocator, addr_eq, handle_ice_binding_request,
}
use signal_calling_service.Sfu.{
  Sfu, SfuError, ConnectionId, same_id, get_connection_from_ice_request_username,
  parse_ice_binding_request, connection_error,
}

-- The response and the address it goes to, or the error, and the registry.
abbrev pub Handled : Type 0
Handled = Result SfuError (List ℕ × SocketLocator) × Sfu

-- The connection answered, or refused.
abbrev pub answered :
    SocketLocator → ConnectionId → Result Error (List ℕ) × Connection → Sfu → Handled
answered addr id (err e, c) sfu = (
  err (connection_error e),
  record sfu { connection_by_id = map_insert same_id id c sfu.connection_by_id },
)
answered addr id (ok response, c) sfu = (
  ok (response, addr),
  record sfu {
    connection_by_id = map_insert same_id id c sfu.connection_by_id;
    connection_id_by_address =
        insert_without_removing_old addr_eq addr id sfu.connection_id_by_address;
  },
)

module _ (mac : List ℕ → List ℕ → List ℕ) (crc : List ℕ → ℕ) where
  abbrev pub to_connection :
      SocketLocator
      → BindingRequest
      → ℕ
      → Result SfuError (ConnectionId × Connection)
      → Sfu
      → Handled
  to_connection addr request now (err e) sfu = (err e, sfu)
  to_connection addr request now (ok (id, c)) sfu =
      answered addr id (handle_ice_binding_request mac crc addr request now c) sfu

  abbrev pub parsed : SocketLocator → ℕ → Result ParseError BindingRequest → Sfu → Handled
  parsed addr now (err e) sfu = (err (parse_ice_binding_request e), sfu)
  parsed addr now (ok request) sfu =
      to_connection addr request now
        (get_connection_from_ice_request_username (username request) sfu) sfu

  -- The branch: `none` for a packet that does not look like a binding request (or a parser that
  -- does not end, and it always does).
  abbrev pub after_parse :
      SocketLocator → ℕ → Option (Result ParseError BindingRequest) → Sfu → Option Handled
  after_parse addr now none sfu = none
  after_parse addr now (some r) sfu = some (parsed addr now r sfu)

  unfoldable pub handle_ice_packet : SocketLocator → List ℕ → ℕ → Sfu → Option Handled
  handle_ice_packet addr packet now sfu =
      if looks_like_header packet then after_parse addr now (parse packet) sfu else none

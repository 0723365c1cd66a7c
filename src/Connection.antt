-- ===== src/Connection.antt =====
-- The ICE part of `Connection` in backend/src/connection.rs: who may redirect the packets to a
-- client, and when a connection is inactive. A data rate tracker is the list of what was pushed,
-- the last first. The SRTP endpoint and the congestion control are not part of this model; the
-- shared secret stands for the keys of the endpoint.
pub mod Authentic
use signal_calling_service.Prelude.{
  ℕ, ◌+◌, Bool, true, false, not, ◌&&◌, ◌==◌, leb, if◌then◌else◌, Option, none, some, unwrap_or,
  List, [], ◌∷◌, length, Result, ok, err,
}
use signal_calling_service.Ice.{BindingRequest, byte_eq, username, hmac}
use signal_calling_service.Ice.Packet.{verify_hmac, to_binding_response}

-- `SocketLocator` of backend/src/packet_server.rs: a UDP address, with whether its canonical form
-- is IPv6, or a TCP connection.
pub data SocketLocator : Type 0 where
  udp : ℕ → Bool → SocketLocator
  tcp : ℕ → Bool → Bool → SocketLocator

abbrev pub bool_eq : Bool → Bool → Bool
bool_eq true b = b
bool_eq false b = not b

abbrev pub addr_eq : SocketLocator → SocketLocator → Bool
addr_eq (udp a v) (udp b w) = (a == b) && bool_eq v w
addr_eq (tcp a v t) (tcp b w u) = (a == b) && (bool_eq v w && bool_eq t u)
addr_eq _ _ = false

pub data AddressType : Type 0 where
  udp_v4 udp_v6 tcp_v4 tcp_v6 tls_v4 tls_v6 : AddressType

abbrev address_type : SocketLocator → AddressType
address_type (udp a is_ipv6) = if is_ipv6 then udp_v6 else udp_v4
address_type (tcp id false false) = tcp_v4
address_type (tcp id false true) = tls_v4
address_type (tcp id true false) = tcp_v6
address_type (tcp id true true) = tls_v6

pub data Error : Type 0 where
  received_ice_with_invalid_hmac received_ice_with_invalid_username : List ℕ → Error

pub record Connection : Type 0 where
  pub created : ℕ
  pub inactivity_timeout : ℕ
  pub request_username : List ℕ
  pub response_username : List ℕ
  pub pwd : List ℕ
  pub binding_request_received : Option ℕ
  pub outgoing_addr : Option SocketLocator
  pub outgoing_addr_type : Option AddressType
  pub shared_secret : List ℕ
  pub incoming_non_media_rate : List (ℕ × ℕ)
  pub non_media_rate : List (ℕ × ℕ)

-- `Connection::new`
abbrev pub new_connection : List ℕ → List ℕ → List ℕ → List ℕ → ℕ → ℕ → Connection
new_connection ice_request_username ice_response_username ice_pwd shared_secret inactivity_timeout
      now =
    record {
      created = now;
      inactivity_timeout = inactivity_timeout;
      request_username = ice_request_username;
      response_username = ice_response_username;
      pwd = ice_pwd;
      binding_request_received = none;
      outgoing_addr = none;
      outgoing_addr_type = none;
      shared_secret = shared_secret;
      incoming_non_media_rate = [];
      non_media_rate = [];
    }

-- `inactive`
abbrev pub inactive : ℕ → Connection → Bool
inactive now c = leb (unwrap_or c.binding_request_received c.created + c.inactivity_timeout) now

-- `self.outgoing_addr == Some(sender_addr)`
abbrev pub sends_to : SocketLocator → Option SocketLocator → Bool
sends_to a none = false
sends_to a (some b) = addr_eq b a

-- The switch to a nominated address.
abbrev pub nominate : SocketLocator → Bool → Connection → Connection
nominate sender_addr nominated c =
    if nominated && not (sends_to sender_addr c.outgoing_addr)
    then record c {
      outgoing_addr = some sender_addr;
      outgoing_addr_type = some (address_type sender_addr);
    }
    else c

module _ (mac : List ℕ → List ℕ → List ℕ) (crc : List ℕ → ℕ) where
  -- The answer and what is noted when the request has been verified.
  abbrev pub accept : SocketLocator → BindingRequest → ℕ → Connection → List ℕ × Connection
  accept sender_addr request now c =
      let switched = nominate sender_addr request.is_nominated c in
      let response = to_binding_response mac crc request c.response_username c.pwd in
      (
        response,
        record switched {
          binding_request_received = some now;
          non_media_rate = (now, length response) ∷ c.non_media_rate;
        },
      )

  -- `handle_ice_binding_request`
  unfoldable pub handle_ice_binding_request :
      SocketLocator → BindingRequest → ℕ → Connection → Result Error (List ℕ) × Connection
  handle_ice_binding_request sender_addr request now c =
      let counted : Connection = record c {
        incoming_non_media_rate = (now, length request.packet) ∷ c.incoming_non_media_rate;
      } in
      if verify_hmac mac crc request c.pwd
      then if byte_eq (username request) c.request_username
        then (let accepted = accept sender_addr request now counted in (ok accepted.0, accepted.1))
        else (err (received_ice_with_invalid_username (username request)), counted)
      else (err (received_ice_with_invalid_hmac (hmac request)), counted)

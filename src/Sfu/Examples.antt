-- ===== src/Sfu/Examples.antt =====
-- The theorems on ICE, connections and the registry at concrete inputs.
use signal_calling_service.Prelude.{
  ℕ, ◌≡◌, ◌⊎◌, refl, true, none, some, List, [], ◌∷◌, ◌++◌, Result, ok, err, Bool, false, arith,
}
use signal_calling_service.Bytes.{repeat}
use signal_calling_service.Collections.TwoGeneration.{new_cache}
use signal_calling_service.Ice.{
  BindingRequest, ParseError, parse, read_attributes, turn, turn_at, magic_cookie, join_username,
  username,
}
use signal_calling_service.Ice.Ends.{parse-ends}
use signal_calling_service.Ice.Errors.{Answer, parse-Answer}
use signal_calling_service.Ice.Packet.{create_binding_request_packet, verify_hmac}
use signal_calling_service.Ice.RoundTrip.{parse-create_binding_request_packet}
use signal_calling_service.Connection.{
  Connection, SocketLocator, new_connection, handle_ice_binding_request,
}
use signal_calling_service.Connection.Authentic.{Outcome, handle_ice_binding_request-Outcome}
use signal_calling_service.Call.State.{RegionRelation, NonParticipantClient, ApprovedUsers}
use signal_calling_service.Sfu.{
  Sfu, SfuError, Join, CallSignalingInfo, get_call_signaling_info, new_call, crypto_error,
  duplicate_demux_id_detected, get_connection_from_address,
}
use signal_calling_service.Sfu.Joining.{get_or_create_call_and_add_client, id_of}
use signal_calling_service.Sfu.Joining.Halfway.{attempts, join-Halfway}
use signal_calling_service.Sfu.Packets.{handle_ice_packet}
use signal_calling_service.Sfu.Packets.EndToEnd.{join-Reaches}
use signal_calling_service.Sfu.Packets.Bound.{Bound}
use signal_calling_service.Sfu.Removal.Swept.{Swept}
use signal_calling_service.Sfu.Signaling.{AsksAsAdmin, Listed, get_call_signaling_info-anonymous}

abbrev mac : List ℕ → List ℕ → List ℕ
mac key message = repeat 20 7

abbrev crc : List ℕ → ℕ
crc message = 0

abbrev zeros : List ℕ
zeros = repeat 12 0

-- A binding request whose hmac is empty.
abbrev empty_hmac : List ℕ
empty_hmac = 0 ∷ 1 ∷ 0 ∷ 4 ∷ 33 ∷ 18 ∷ 164 ∷ 66 ∷ (zeros ++ 0 ∷ 8 ∷ 0 ∷ 0 ∷ [])

parse-ends_example : (r : Result ParseError BindingRequest) × (parse empty_hmac ≡ some r)
parse-ends_example = parse-ends empty_hmac

parse-Answer_example : Answer empty_hmac (err (ParseError.wrong_hmac_length 0 20))
unfolding parse read_attributes turn turn_at
parse-Answer_example = parse-Answer empty_hmac (err (ParseError.wrong_hmac_length 0 20)) refl

abbrev user : List ℕ
user = join_username (1 ∷ 2 ∷ []) (3 ∷ 4 ∷ [])

parse-create_binding_request_packet_example :
    (b : BindingRequest) × (parse
        (create_binding_request_packet mac crc (magic_cookie ++ zeros) user (9 ∷ []) true)
      ≡ some (ok b))
    × (username b ≡ user)
    × (b.is_nominated ≡ true)
    × (verify_hmac mac crc b (9 ∷ []) ≡ true)
parse-create_binding_request_packet_example =
    parse-create_binding_request_packet mac crc (magic_cookie ++ zeros) user (9 ∷ []) true refl
      (λ _ _. refl) (omega arith)

abbrev somewhere : SocketLocator
somewhere = SocketLocator.udp 5 false

abbrev some_connection : Connection
some_connection = new_connection user (7 ∷ []) (9 ∷ []) [] 30 0

abbrev some_request : BindingRequest
some_request = record {
  packet = empty_hmac;
  is_nominated = true;
  ranges = record {
    username = record { start = 0; end = 0 };
    hmac = record { start = 20; end = 20 };
    fingerprint = record { start = 0; end = 0 };
  };
}

handle_ice_binding_request-Outcome_example :
    Outcome mac crc somewhere some_request 3 some_connection
      (handle_ice_binding_request mac crc somewhere some_request 3 some_connection)
handle_ice_binding_request-Outcome_example =
    handle_ice_binding_request-Outcome mac crc somewhere some_request 3 some_connection

abbrev no_calls : Sfu
no_calls = record {
  config = record {
    initial_target_send_rate = 600_000;
    default_requested_max_send_rate = 20_000_000;
    active_speaker_message_interval = 1_000_000_000;
    persist_approval_for_all_users_who_join = true;
    inactivity_timeout = 30;
    inactivity_check_interval = 5;
  };
  call_by_call_id = [];
  connection_by_id = [];
  connection_id_by_ice_request_username = [];
  connection_id_by_address = new_cache 30 0;
  activity_checked = 0;
}

abbrev some_join : Join
some_join = record {
  call_id = 1;
  user_id = 2;
  demux_id = 16;
  server_ice_ufrag = 3 ∷ 4 ∷ [];
  server_ice_pwd = 9 ∷ [];
  client_ice_ufrag = 1 ∷ 2 ∷ [];
  client_dhe_public_key = [];
  region_relation = RegionRelation.unknown;
  new_clients_require_approval = false;
  is_admin = false;
  approved_users = none;
}

abbrev same_rate : ℕ → ℕ
same_rate r = r

abbrev agreed : List ℕ → Result SfuError (List ℕ × List ℕ)
agreed key = ok (5 ∷ [], 6 ∷ [])

abbrev failed : List ℕ → Result SfuError (List ℕ × List ℕ)
failed key = err crypto_error

-- Another client tries, too.
abbrev other_join : Join
other_join = record some_join { demux_id = 32; user_id = 5 }

join-Halfway_example :
    let (answer, after) =
      get_or_create_call_and_add_client same_rate failed 1 2 some_join no_calls in
    (answer ≡ err crypto_error)
    × (after.connection_by_id ≡ [])
    × ((get_or_create_call_and_add_client same_rate failed 8 9 some_join
          (attempts same_rate failed after ((5, (6, other_join)) ∷ []))).0
        ≡ err duplicate_demux_id_detected)
join-Halfway_example =
    join-Halfway same_rate failed 1 2 8 9 some_join some_join ((5, (6, other_join)) ∷ []) no_calls
      crypto_error refl refl refl refl

abbrev joined_sfu : Sfu
joined_sfu = (get_or_create_call_and_add_client same_rate agreed 1 2 some_join no_calls).1

abbrev first_request : List ℕ
first_request = create_binding_request_packet mac crc (magic_cookie ++ zeros) user (9 ∷ []) true

join-Reaches_example :
    (response : List ℕ) × (after : Sfu) × (c : Connection) × (handle_ice_packet mac crc somewhere
        first_request 3 joined_sfu
      ≡ some (ok (response, somewhere), after))
    × (get_connection_from_address somewhere after ≡ ok (id_of some_join, c))
    × (c.outgoing_addr ≡ some somewhere)
join-Reaches_example =
    join-Reaches mac crc same_rate agreed 1 2 3 somewhere some_join zeros true no_calls refl refl
      refl (λ _ _. refl) (omega arith)

-- A registry with a call in which somebody waits, an old connection, and a call without clients.
abbrev waiting : NonParticipantClient
waiting = record {
  demux_id = 32;
  user_id = 4;
  is_admin = false;
  region_relation = RegionRelation.unknown;
  next_server_to_client_data_rtp_seqnum = 1;
}

abbrev busy : Sfu
busy = record no_calls {
  call_by_call_id =
      (1, (record (new_call true no_calls.config 0 []) { pending_clients = waiting ∷ [] }))
      ∷ (2, new_call true no_calls.config 0 [])
      ∷ [];
  connection_by_id = (record { call_id = 1; demux_id = 32 }, some_connection) ∷ [];
}

-- Approved users that are stored at once.
abbrev store : ApprovedUsers → ApprovedUsers × Bool
store users = (record users { modified = false }, false)

get_call_signaling_info-anonymous_example :
    let call = record (new_call true no_calls.config 0 []) { pending_clients = waiting ∷ [] } in
    (info : CallSignalingInfo) × (get_call_signaling_info 1 (some 4) busy ≡ some info)
    × ((AsksAsAdmin (some 4) call × Listed true call.pending_clients info.pending_client_ids)
        ⊎ ((¬ AsksAsAdmin (some 4) call)
            × Listed false call.pending_clients info.pending_client_ids))
get_call_signaling_info-anonymous_example =
    get_call_signaling_info-anonymous 1 (some 4) busy
      (record (new_call true no_calls.config 0 []) { pending_clients = waiting ∷ [] }) refl

-- ===== src/Sfu/Packets/EndToEnd.antt =====
-- From joining to the first packet: a client that has joined reaches its connection in
-- backend/src/sfu.rs with the binding request that backend/src/ice.rs makes for it.
use signal_calling_service.Prelude.{
  ℕ, ◌+◌, ◌<◌, ◌≡◌, refl, ap, ◌∙◌, Bool, false, none, if◌then◌else◌, some, List, ◌++◌, length,
  arith, Result, ok, and_then, ok_or,
}
use signal_calling_service.Ice.{hmac_len, magic_cookie, byte_eq, join_username}
use signal_calling_service.Ice.Packet.{create_binding_request_packet, to_binding_response}
use signal_calling_service.Ice.RoundTrip.{parse-create_binding_request_packet, byte_eq_refl}
use signal_calling_service.Connection.{Connection, SocketLocator}
use signal_calling_service.Call.Members.{add_client}
use signal_calling_service.Sfu.{
  Sfu, SfuError, Join, ConnectionId, same_id, has_client, find_connection,
  get_connection_from_address, get_connection_from_ice_request_username, missing_connection,
  ice_binding_request_unknown_username,
}
use signal_calling_service.Sfu.Joining.{
  joined_call, put_call, put_connection, connection_for, id_of, get_or_create_call_and_add_client,
}
use signal_calling_service.Sfu.Packets.{handle_ice_packet, parsed}
use signal_calling_service.Sfu.Packets.Reaches.{
  map_get-map_insert, same_id_refl, handle-parsed, parsed-answers, looks,
}

-- The registry finds a connection that has just been put into it by its username.
put_connection-found :
    (id : ConnectionId) (c : Connection) (sfu : Sfu)
    → get_connection_from_ice_request_username c.request_username (put_connection id c sfu)
      ≡ ok (id, c)
put_connection-found id c sfu =
    ap
      (λ o.
        and_then (ok_or o (ice_binding_request_unknown_username c.request_username))
          λ i. find_connection i (put_connection id c sfu))
      (map_get-map_insert byte_eq c.request_username id sfu.connection_id_by_ice_request_username
        (byte_eq_refl c.request_username))
    ∙ ap (λ o. and_then (ok_or o (missing_connection id.call_id id.demux_id)) λ d. ok (id, d))
        (map_get-map_insert same_id id c sfu.connection_by_id (same_id_refl id))

module _ (mac : List ℕ → List ℕ → List ℕ) (crc : List ℕ → ℕ) (scale : ℕ → ℕ)
    (agree : List ℕ → Result SfuError (List ℕ × List ℕ)) where
  -- The registry after a join that succeeds.
  abbrev joined : ℕ → ℕ → Join → List ℕ → Sfu → Sfu
  joined now locked j secret sfu =
      let added =
        add_client scale j.demux_id j.user_id j.is_admin j.region_relation locked
          (joined_call now j sfu) in
      let called = put_call j.call_id added.1 sfu in
      put_connection (id_of j) (connection_for now j secret called) called

  join-joined :
      (now locked : ℕ) (j : Join) (sfu : Sfu) {key secret : List ℕ}
      → has_client j.demux_id (joined_call now j sfu) ≡ false
      → agree j.client_dhe_public_key ≡ ok (key, secret)
      → (get_or_create_call_and_add_client scale agree now locked j sfu).1
        ≡ joined now locked j secret sfu
  unfolding get_or_create_call_and_add_client
  join-joined now locked j sfu fresh agreed = rw (fresh, agreed) refl

  -- When a client that is not in the call yet joins and the key agreement succeeds, then the first
  -- binding request that it makes from its username and the server's password, nominated or not,
  -- with a transaction id that begins with the magic cookie, is answered to the address it came
  -- from, and from then on the registry finds the client's connection by this address. The
  -- connection sends to this address if the request was nominated, and otherwise to none yet. HMACs
  -- have 20 bytes, and the username leaves room in the packet.
  pub join-Reaches :
      (now locked later : ℕ) (addr : SocketLocator) (j : Join) (tid : List ℕ) (nominated : Bool)
      (sfu : Sfu) {key secret : List ℕ}
      → has_client j.demux_id (joined_call now j sfu) ≡ false
      → agree j.client_dhe_public_key ≡ ok (key, secret)
      → length tid ≡ 12
      → ((k message : List ℕ) → length (mac k message) ≡ hmac_len)
      → length (join_username j.client_ice_ufrag j.server_ice_ufrag) + 48 < 65536
      → (response : List ℕ) × (after : Sfu) × (c : Connection) × (handle_ice_packet mac crc addr
            (create_binding_request_packet mac crc
              (magic_cookie ++ tid)
              (join_username j.client_ice_ufrag j.server_ice_ufrag)
              j.server_ice_pwd
              nominated)
            later
            (get_or_create_call_and_add_client scale agree now locked j sfu).1
          ≡ some (ok (response, addr), after))
        × (get_connection_from_address addr after ≡ ok (id_of j, c))
        × (c.outgoing_addr ≡ (if nominated then some addr else none))
  join-Reaches now locked later addr j tid nominated sfu {key} {secret} fresh agreed ht hm small =
      let user = join_username j.client_ice_ufrag j.server_ice_ufrag in
      let made =
        parse-create_binding_request_packet mac crc (magic_cookie ++ tid) user j.server_ice_pwd
          nominated (omega arith) hm small in
      let after_join = joined now locked j secret sfu in
      let called =
        put_call j.call_id
          (add_client scale j.demux_id j.user_id j.is_admin j.region_relation locked
            (joined_call now j sfu)).1
          sfu in
      let c = connection_for now j secret called in
      let after = (parsed mac crc addr later (ok made.0) after_join).1 in
      let answer =
        parsed-answers mac crc addr later made.0 (id_of j) c after_join
          (ap (λ n. get_connection_from_ice_request_username n after_join) made.2
            ∙ put_connection-found (id_of j) c called)
          made.4 (ap (λ n. byte_eq n user) made.2 ∙ byte_eq_refl user) refl in
      (
        to_binding_response mac crc made.0 c.response_username c.pwd,
        after,
        answer.1.0,
        ap
              (handle_ice_packet mac crc addr
                (create_binding_request_packet mac crc (magic_cookie ++ tid) user j.server_ice_pwd
                  nominated)
                later)
              (join-joined now locked j sfu fresh agreed)
            ∙ handle-parsed mac crc addr _ later after_join made.0
                (looks mac crc tid user j.server_ice_pwd nominated ht hm) made.1
            ∙ ap (λ a. some (a, after)) answer.0,
        answer.1.1,
        answer.1.2 ∙ ap (λ n. if n then some addr else none) made.3,
      )

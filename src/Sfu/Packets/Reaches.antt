-- ===== src/Sfu/Packets/Reaches.antt =====
-- From joining to the first packet: a client that has joined reaches its connection in
-- backend/src/sfu.rs with the binding request that backend/src/ice.rs makes for it.
use signal_calling_service.Prelude.{
  ℕ, ◌+◌, ◌%◌, ◌/◌, ◌^◌, ◌≡◌, if◌then◌else◌, none, refl, sym, ap, ◌∙◌, Bool, true, false, ◌&&◌,
  ==_refl, leb, none, some, List, [], ◌∷◌, ◌++◌, length, Bool-cases, inl, inr, arith, ok, subst,
  and_then, ok_or,
}
use signal_calling_service.Collections.TwoGeneration.{
  map_get, map_insert, get, or_else, insert_without_removing_old, TwoGenerationCache,
}
use signal_calling_service.Ice.{
  BindingRequest, attr_message_integrity, attr_fingerprint, hmac_len, magic_cookie, byte_eq,
  username, parse, looks_like_header,
}
use signal_calling_service.Ice.Packet.{
  create_binding_request_packet, verify_hmac, to_binding_response,
}
use signal_calling_service.Ice.Layout.{
  hmaced, laid_out, attr_header, hmac_value, fingerprint_value, create_packet-laid_out,
}
use signal_calling_service.Serialize.{to_vec}
use signal_calling_service.Connection.Authentic.{nominate-outgoing_addr}
use signal_calling_service.Connection.{
  nominate, Connection, SocketLocator, addr_eq, bool_eq, handle_ice_binding_request, accept,
}
use signal_calling_service.Sfu.{
  Sfu, ConnectionId, same_id, unknown_address, missing_connection, find_connection,
  get_connection_from_ice_request_username, get_connection_from_address,
}
use signal_calling_service.Sfu.Packets.{handle_ice_packet, parsed, to_connection, answered}

pub map_get-map_insert {ℓ κ} :
    {K : Type ℓ} {V : Type κ} (same : K → K → Bool) (k : K) (v : V) (m : List (K × V))
    → same k k ≡ true
    → map_get same k (map_insert same k v m) ≡ some v
map_get-map_insert same k v [] h = rw h refl
map_get-map_insert same k v ((j, w) ∷ m) h = elim (Bool-cases (same j k)) [
  | inl t ↦ rw (t, map_get, h) refl
  | inr f ↦ rw (f, map_get, f) (map_get-map_insert same k v m h)
]

pub same_id_refl : (i : ConnectionId) → same_id i i ≡ true
same_id_refl i = rw (==_refl i.call_id, ==_refl i.demux_id) refl

bool_eq_refl : (b : Bool) → bool_eq b b ≡ true
bool_eq_refl true = refl
bool_eq_refl false = refl

addr_eq_refl : (a : SocketLocator) → addr_eq a a ≡ true
addr_eq_refl (SocketLocator.udp a v) = rw (==_refl a, bool_eq_refl v) refl
addr_eq_refl (SocketLocator.tcp a v t) = rw (==_refl a, bool_eq_refl v, bool_eq_refl t) refl

leb-8 : (n : ℕ) → leb 8 (8 + n) ≡ true
leb-8 n = ground arith

looks-bytes :
    (x y : ℕ) (rest : List ℕ) → looks_like_header (0 ∷ 1 ∷ x ∷ y ∷ (magic_cookie ++ rest)) ≡ true
looks-bytes x y rest =
    ap (λ b. b && true && true)
      (ap (leb 8) {y = 8 + length rest} (omega arith) ∙ leb-8 (length rest))

looks-laid_out :
    (mac : List ℕ → List ℕ → List ℕ) (crc : List ℕ → ℕ) (tid pwd body : List ℕ)
    → looks_like_header (laid_out mac crc 0 1 (magic_cookie ++ tid) pwd body) ≡ true
looks-laid_out mac crc tid pwd body =
    looks-bytes ((length body + 32) % 2 ^ 16 / 256 % 256) ((length body + 32) % 2 ^ 16 % 256) (
      tid
      ++ (body
          ++ (attr_header attr_message_integrity 20
              ++ (hmac_value mac crc 0 1 (magic_cookie ++ tid) pwd body
                  ++ (attr_header attr_fingerprint 4
                      ++ fingerprint_value mac crc 0 1 (magic_cookie ++ tid) pwd body)))))

get-insert_without_removing_old {ℓ κ} :
    {K : Type ℓ} {V : Type κ} (same : K → K → Bool) (k : K) (v : V) (c : TwoGenerationCache K V)
    → same k k ≡ true
    → get same k (insert_without_removing_old same k v c) ≡ some v
unfolding get
get-insert_without_removing_old same k v c h =
    ap (λ o. or_else o (map_get same k c.generation1)) (map_get-map_insert same k v c.generation0 h)

nominated-address :
    (addr : SocketLocator) (n : Bool) (c : Connection)
    → c.outgoing_addr ≡ none
    → (nominate addr n c).outgoing_addr ≡ (if n then some addr else none)
nominated-address addr true c a = nominate-outgoing_addr addr true c ∙ rw a refl
nominated-address addr false c a = nominate-outgoing_addr addr false c ∙ a

-- The request that a connection knows by its username and password goes to it and is answered.
module _ (mac : List ℕ → List ℕ → List ℕ) (crc : List ℕ → ℕ) where
  answers :
      (addr : SocketLocator) (request : BindingRequest) (now : ℕ) (c : Connection)
      → verify_hmac mac crc request c.pwd ≡ true
      → byte_eq (username request) c.request_username ≡ true
      → handle_ice_binding_request mac crc addr request now c ≡ (
          let counted : Connection = record c {
            incoming_non_media_rate = (now, length request.packet) ∷ c.incoming_non_media_rate;
          } in
          let accepted = accept mac crc addr request now counted in (ok accepted.0, accepted.1))
  unfolding handle_ice_binding_request
  answers addr request now c v u = rw (v, u) refl

  pub looks :
      (tid user pwd : List ℕ) (nominated : Bool)
      → length tid ≡ 12
      → ((key message : List ℕ) → length (mac key message) ≡ hmac_len)
      → looks_like_header
          (create_binding_request_packet mac crc (magic_cookie ++ tid) user pwd nominated)
        ≡ true
  looks tid user pwd nominated ht hm =
      ap looks_like_header (
        create_packet-laid_out mac crc 0 1 (magic_cookie ++ tid) user pwd nominated (omega arith)
          hm)
      ∙ looks-laid_out mac crc tid pwd (to_vec (hmaced user nominated))

  pub handle-parsed :
      (addr : SocketLocator) (packet : List ℕ) (now : ℕ) (sfu : Sfu) (request : BindingRequest)
      → looks_like_header packet ≡ true
      → parse packet ≡ some (ok request)
      → handle_ice_packet mac crc addr packet now sfu
        ≡ some (parsed mac crc addr now (ok request) sfu)
  unfolding handle_ice_packet
  handle-parsed addr packet now sfu request l p = rw (l, p) refl

  -- The connection that a registry finds by an address that has just been bound to it.
  finds :
      (addr : SocketLocator) (id : ConnectionId) (c : Connection) (sfu after : Sfu)
      → after ≡ record sfu {
        connection_by_id = map_insert same_id id c sfu.connection_by_id;
        connection_id_by_address =
            insert_without_removing_old addr_eq addr id sfu.connection_id_by_address;
      }
      → get_connection_from_address addr after ≡ ok (id, c)
  finds addr id c sfu after h =
      ap (get_connection_from_address addr) h
      ∙ ap
          (λ o. and_then (ok_or o (unknown_address addr)) λ i.
            find_connection i
              (record sfu { connection_by_id = map_insert same_id id c sfu.connection_by_id }))
          (get-insert_without_removing_old addr_eq addr id sfu.connection_id_by_address
            (addr_eq_refl addr))
      ∙ ap (λ o. and_then (ok_or o (missing_connection id.call_id id.demux_id)) λ d. ok (id, d))
          (map_get-map_insert same_id id c sfu.connection_by_id (same_id_refl id))

  -- What a registry with this connection under its username does with the request.
  pub parsed-answers :
      (addr : SocketLocator) (now : ℕ) (request : BindingRequest) (id : ConnectionId)
      (c : Connection) (sfu : Sfu)
      → get_connection_from_ice_request_username (username request) sfu ≡ ok (id, c)
      → verify_hmac mac crc request c.pwd ≡ true
      → byte_eq (username request) c.request_username ≡ true
      → c.outgoing_addr ≡ none
      → let (answer, after) = parsed mac crc addr now (ok request) sfu in
        (answer ≡ ok (to_binding_response mac crc request c.response_username c.pwd, addr))
        × ((d : Connection) × (get_connection_from_address addr after ≡ ok (id, d))
            × (d.outgoing_addr ≡ (if request.is_nominated then some addr else none)))
  parsed-answers addr now request id c sfu found v u a =
      let counted : Connection = record c {
        incoming_non_media_rate = (now, length request.packet) ∷ c.incoming_non_media_rate;
      } in
      let done = accept mac crc addr request now counted in
      subst
        (λ h.
          (h.0 ≡ ok (to_binding_response mac crc request c.response_username c.pwd, addr))
          × ((d : Connection) × (get_connection_from_address addr h.1 ≡ ok (id, d))
              × (d.outgoing_addr ≡ (if request.is_nominated then some addr else none))))
        (sym (
          ap (λ g. to_connection mac crc addr request now g sfu) found
          ∙ ap (λ r. answered addr id r sfu) (answers addr request now c v u)))
        (
          refl,
          (
            done.1,
            finds addr id done.1 sfu _ refl,
            nominated-address addr request.is_nominated counted a,
          ),
        )

-- ===== src/Connection/Authentic.antt =====
-- Only an authentic binding request changes where `Connection` of backend/src/connection.rs sends.
use signal_calling_service.Prelude.{
  ℕ, Bool, true, false, ◌≡◌, refl, List, some, ◌∷◌, length, Result, ok, err, if-elim, Bool-cases,
  inl, inr, not, ◌&&◌, if◌then◌else◌,
}
use signal_calling_service.Ice.{BindingRequest, byte_eq, username, hmac}
use signal_calling_service.Ice.Packet.{verify_hmac, to_binding_response}
use signal_calling_service.Connection.{
  SocketLocator, Error, Connection, nominate, handle_ice_binding_request, sends_to,
}

pub nominate-outgoing_addr :
    (a : SocketLocator) (n : Bool) (c : Connection)
    → (nominate a n c).outgoing_addr
      ≡ (if n && not (sends_to a c.outgoing_addr) then some a else c.outgoing_addr)
nominate-outgoing_addr a n c = elim (Bool-cases (n && not (sends_to a c.outgoing_addr))) [
  | inl t ↦ rw (t, nominate) refl
  | inr f ↦ rw (f, nominate) refl
]

-- What a connection did with a request from an address.
abbrev pub Outcome :
    (List ℕ → List ℕ → List ℕ)
    → (List ℕ → ℕ)
    → SocketLocator
    → BindingRequest
    → ℕ
    → Connection
    → Result Error (List ℕ) × Connection
    → Type 0
Outcome mac crc a request now c (ok response, d) =
    (verify_hmac mac crc request c.pwd ≡ true)
    × (byte_eq (username request) c.request_username ≡ true)
    × (response ≡ to_binding_response mac crc request c.response_username c.pwd)
    × (d.binding_request_received ≡ some now)
    × (d.outgoing_addr ≡ (
        if request.is_nominated && not (sends_to a c.outgoing_addr)
        then some a
        else c.outgoing_addr))
Outcome mac crc a request now c (err (Error.received_ice_with_invalid_hmac h), d) =
    (verify_hmac mac crc request c.pwd ≡ false)
    × (h ≡ hmac request)
    × (d ≡ record c {
      incoming_non_media_rate = (now, length request.packet) ∷ c.incoming_non_media_rate;
    })
Outcome mac crc a request now c (err (Error.received_ice_with_invalid_username u), d) =
    (verify_hmac mac crc request c.pwd ≡ true)
    × (byte_eq (username request) c.request_username ≡ false)
    × (u ≡ username request)
    × (d ≡ record c {
      incoming_non_media_rate = (now, length request.packet) ∷ c.incoming_non_media_rate;
    })

-- A connection accepts a binding request only when its hmac is that of the connection's password
-- and its username is the connection's: then it answers, notes the time, and sends to the
-- request's address from then on if the request is nominated and as before if not. Otherwise the
-- error says which of the two was wrong, and nothing but the count of bytes changes.
pub handle_ice_binding_request-Outcome :
    (mac : List ℕ → List ℕ → List ℕ) (crc : List ℕ → ℕ) (a : SocketLocator)
    (request : BindingRequest) (now : ℕ) (c : Connection)
    → Outcome mac crc a request now c (handle_ice_binding_request mac crc a request now c)
unfolding handle_ice_binding_request
handle_ice_binding_request-Outcome mac crc a request now c =
    if-elim (Outcome mac crc a request now c) (verify_hmac mac crc request c.pwd)
      (λ v.
        if-elim (Outcome mac crc a request now c) (byte_eq (username request) c.request_username)
          (λ u. (v, u, refl, refl, nominate-outgoing_addr a request.is_nominated _))
          λ w. (v, w, refl, refl))
      λ f. (f, refl, refl)

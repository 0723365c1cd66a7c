-- ===== src/Call/Members.antt =====
-- Who is in a call: `add_client`, `drop_client` and the admin's operations of backend/src/call.rs.
-- Logging is left out. `scale` is as in `allocate_send_rate`.
pub mod View
pub mod Identities
pub mod Spec
pub mod Removal
pub mod Run
pub mod Admission
pub mod Rights
pub mod Blocked
pub mod Devices
pub mod Noted
use signal_calling_service.Prelude.{
  ℕ, zero, suc, ◌+◌, ◌-◌, Bool, true, false, not, ◌||◌, Option, none, some, List, [], ◌∷◌, ◌++◌,
  map, ◌==◌, if◌then◌else◌, any, keep, find, length,
}
use signal_calling_service.Prelude.Dict.{erase}
use signal_calling_service.Call.Ssrc.{demux_from_ssrc}
use signal_calling_service.Call.State.{
  RegionRelation, ClientStatus, active, pending, blocked, NonParticipantClient, Client, new_client,
  RaisedHand, CallTimeStats, Call, contains, set_insert, set_remove, approve, revoke, identities,
}
use signal_calling_service.Call.Intervals.{raised_hands_message_interval}
use signal_calling_service.Call.Layers.{
  allocate_video_layers, reallocate_target_send_rates, update_padding_ssrcs,
}

-- `calling_common::drain_filter`: what is taken out, and what stays.
abbrev pub drained {ℓ} : {A : Type ℓ} → (A → Bool) → List A → List A
drained = keep

abbrev pub remaining {ℓ} : {A : Type ℓ} → (A → Bool) → List A → List A
remaining p = keep (λ x. not (p x))

-- `Vec::swap_remove` at the first element that passes the test: the last element takes its place.
abbrev pub init_last {ℓ} : {A : Type ℓ} → A → List A → List A × A
init_last x [] = ([], x)
init_last x (y ∷ ys) = let rest = init_last y ys in (x ∷ rest.0, rest.1)

abbrev pub fill_gap {ℓ} : {A : Type ℓ} → List A → List A
fill_gap [] = []
fill_gap (y ∷ ys) = let rest = init_last y ys in rest.1 ∷ rest.0

abbrev pub swap_remove {ℓ} : {A : Type ℓ} → (A → Bool) → List A → List A
swap_remove p [] = []
swap_remove p (x ∷ xs) = if p x then fill_gap xs else x ∷ swap_remove p xs

abbrev bump : ℕ → ℕ → CallTimeStats → CallTimeStats
bump zero d t = record t { empty = t.empty + d }
bump (suc zero) d t = record t { solo = t.solo + d }
bump (suc (suc zero)) d t = record t { pair = t.pair + d }
bump (suc (suc (suc n))) d t = record t { many = t.many + d }

unfoldable pub will_add_or_remove_client : ℕ → Call → Call
will_add_or_remove_client now call = record call {
  call_time = bump (length call.clients) (now - call.client_added_or_removed) call.call_time;
  client_added_or_removed = now;
}

-- The hand that is up and belongs to the client goes down: the first entry of the client decides.
abbrev lower_hand : ℕ → List RaisedHand → List RaisedHand
lower_hand id [] = []
lower_hand id (h ∷ hs) =
    if h.demux_id == id then record h { raise = false } ∷ hs else h ∷ lower_hand id hs

abbrev pub hand_is_up : Option RaisedHand → Bool
hand_is_up none = false
hand_is_up (some h) = h.raise

unfoldable pub lower_raised_hand : ℕ → ℕ → Call → Call
lower_raised_hand id now call = elim call.raised_hands [
  | none ↦ call
  | some hands ↦
      if hand_is_up (find (λ h. h.demux_id == id) hands)
      then record call {
        raised_hands = some (lower_hand id hands);
        raised_hands_sent = now - raised_hands_message_interval;
      }
      else call
]

abbrev pub has_user : ℕ → NonParticipantClient → Bool
has_user u c = c.user_id == u

abbrev pub has_demux : ℕ → NonParticipantClient → Bool
has_demux id c = c.demux_id == id

-- The user of the first client with a demux id.
abbrev pub user_of : ℕ → List NonParticipantClient → Option ℕ
user_of id cs = elim (find (has_demux id) cs) [ none ↦ none | some c ↦ some c.user_id ]

-- The forwarders from removed clients.
abbrev forget_sender : ℕ → Client → Client
forget_sender id c = record c {
  audio_forwarder_by_sender_demux_id = erase id c.audio_forwarder_by_sender_demux_id;
  video_forwarder_by_sender_demux_id = erase id c.video_forwarder_by_sender_demux_id;
  data_forwarder_by_sender_demux_id = erase id c.data_forwarder_by_sender_demux_id;
}

abbrev pub forget_senders : List ℕ → Client → Client
forget_senders [] c = c
forget_senders (id ∷ ids) c = forget_senders ids (forget_sender id c)

module _ (scale : ℕ → ℕ) where
  unfoldable pub promote_client : ℕ → NonParticipantClient → Call → Call
  promote_client now c call =
      let noted : Call = will_add_or_remove_client now call in
      let joined : Call = record noted {
        clients =
            noted.clients
            ++ (new_client c noted.initial_target_send_rate noted.default_requested_max_send_rate
                  now
                ∷ []);
      } in
      update_padding_ssrcs (
        allocate_video_layers scale c.demux_id joined.initial_target_send_rate
          joined.initial_target_send_rate now joined)

  unfoldable pub promote_all : ℕ → List NonParticipantClient → Call → Call
  promote_all now [] call = call
  promote_all now (c ∷ cs) call = promote_all now cs (promote_client now c call)

  unfoldable pub add_client : ℕ → ℕ → Bool → RegionRelation → ℕ → Call → ClientStatus × Call
  add_client demux_id user_id is_admin region_relation now call =
      let c : NonParticipantClient = record {
        demux_id = demux_id;
        user_id = user_id;
        is_admin = is_admin;
        region_relation = region_relation;
        next_server_to_client_data_rtp_seqnum = 1;
      } in
      if contains user_id call.blocked_users
      then (blocked, record call { removed_clients = call.removed_clients ++ (c ∷ []) })
      else if is_admin
          || (not call.new_clients_require_approval || contains user_id call.approved_users.users)
      then (
        active,
        promote_client now c (record call {
          approved_users =
              if call.persist_approval_for_all_users_who_join
              then approve user_id call.approved_users
              else call.approved_users;
        }),
      )
      else (
        pending,
        (let noted : Call = will_add_or_remove_client now call in
            record noted { pending_clients = noted.pending_clients ++ (c ∷ []) }),
      )

  unfoldable pub approve_pending_client : ℕ → ℕ → Call → Call
  approve_pending_client id now call = elim (user_of id call.pending_clients) [
    | none ↦ call
    | some user ↦
        let promoted : Call =
          promote_all now (drained (has_user user) call.pending_clients)
            (record call { pending_clients = remaining (has_user user) call.pending_clients }) in
        record promoted {
          denied_users = set_remove user promoted.denied_users;
          approved_users = approve user promoted.approved_users;
        }
  ]

  unfoldable pub deny_pending_client : ℕ → ℕ → Call → Call
  deny_pending_client id now call = elim (user_of id call.pending_clients) [
    | none ↦ call
    | some user ↦
        let noted : Call = will_add_or_remove_client now call in
        record noted {
          pending_clients = remaining (has_user user) noted.pending_clients;
          removed_clients = noted.removed_clients ++ drained (has_user user) noted.pending_clients;
          denied_users = set_insert user noted.denied_users;
          blocked_users =
              if contains user noted.denied_users
              then set_insert user noted.blocked_users
              else noted.blocked_users;
        }
  ]

  unfoldable pub update_for_removed_clients : List ℕ → ℕ → Call → Call
  update_for_removed_clients ids now call =
      let padded : Call = update_padding_ssrcs (reallocate_target_send_rates scale now call) in
      record padded {
        clients = map (forget_senders ids) padded.clients;
        key_frame_request_sent_by_ssrc =
            keep (λ e. not (contains (demux_from_ssrc e.0) ids))
              padded.key_frame_request_sent_by_ssrc;
      }

  -- The client that is removed, if there is one, and the call.
  unfoldable pub remove_client : ℕ → ℕ → Call → Option Client × Call
  remove_client id now call = elim (find (λ c. c.demux_id == id) call.clients) [
    | none ↦ (none, call)
    | some c ↦
        let noted : Call = will_add_or_remove_client now call in
        (
          some c,
          update_for_removed_clients (id ∷ []) now
              (record noted { clients = swap_remove (λ c. c.demux_id == id) noted.clients }),
        )
  ]

  -- The part of `drop_client` for a client that does not participate.
  abbrev pub drop_other : ℕ → ℕ → Call → Call
  drop_other id now call =
      if any (has_demux id) call.pending_clients
      then (let noted : Call = will_add_or_remove_client now call in
          record noted { pending_clients = swap_remove (has_demux id) noted.pending_clients })
      else record call { removed_clients = swap_remove (has_demux id) call.removed_clients }

  unfoldable pub drop_client : ℕ → ℕ → Call → Call
  drop_client id now call =
      let r = remove_client id now call in
      lower_raised_hand id now (elim r.0 [ none ↦ drop_other id now r.1 | some c ↦ r.1 ])

  unfoldable pub force_remove_client : ℕ → ℕ → Call → Call
  force_remove_client id now call =
      let r = remove_client id now call in
      elim r.0 [
        | none ↦ r.1
        | some c ↦
            let rest : Call = r.1 in
            lower_raised_hand id now (record rest {
              approved_users =
                  if any (has_user c.user_id) (identities rest.clients)
                  then rest.approved_users
                  else revoke c.user_id rest.approved_users;
              removed_clients = rest.removed_clients ++ (c.info ∷ []);
            })
      ]

  unfoldable pub block_client : ℕ → ℕ → Call → Call
  block_client id now call = elim (user_of id (identities call.clients)) [
    | none ↦ call
    | some user ↦
        let noted : Call = will_add_or_remove_client now call in
        let gone = identities (drained (λ c. c.user_id == user) noted.clients) in
        let updated : Call =
          update_for_removed_clients (map (λ c. c.demux_id) gone) now (record noted {
            clients = remaining (λ c. c.user_id == user) noted.clients;
            removed_clients = noted.removed_clients ++ gone;
          }) in
        record updated {
          approved_users = revoke user updated.approved_users;
          blocked_users = set_insert user updated.blocked_users;
        }
  ]

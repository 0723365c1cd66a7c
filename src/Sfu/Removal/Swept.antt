-- ===== src/Sfu/Removal/Swept.antt =====
-- What is left of the connections and calls after inactive ones were removed, in
-- backend/src/sfu.rs.
use signal_calling_service.Prelude.{
  ℕ, ◌+◌, ◌≤◌, ◌<◌, ◌≡◌, ◌⊎◌, Bool, true, false, ◌&&◌, ◌==◌, if◌then◌else◌, List, [], ◌∷◌, keep,
}
use signal_calling_service.Connection.{Connection, inactive}
use signal_calling_service.Call.State.{Call, ApprovedUsers, NonParticipantClient}
use signal_calling_service.Call.Activity.{nobody_in}
use signal_calling_service.Call.Members.View.{View, view}
use signal_calling_service.Call.Members.Spec.{drop_one}
use signal_calling_service.Sfu.{Sfu, ConnectionId}
use signal_calling_service.Sfu.Removal.{expires, drop_expired}

-- A call as admission sees it, without the clients of its inactive connections.
abbrev pub left_by : ℕ → ℕ → List (ConnectionId × Connection) → View → View
left_by now call_id [] v = v
left_by now call_id ((id, c) ∷ cs) v =
    left_by now call_id cs
      (if inactive now c && (id.call_id == call_id) then drop_one id.demux_id v else v)

abbrev pub clients_of :
    View → List NonParticipantClient × (List NonParticipantClient × List NonParticipantClient)
clients_of v = (v.members, (v.pending, v.removed))

abbrev pub nobody : View → Bool
nobody v = nobody_in v.members && (nobody_in v.pending && nobody_in v.removed)

module _ (persist : ApprovedUsers → ApprovedUsers × Bool) (now timeout : ℕ)
    (connections : List (ConnectionId × Connection)) where
  abbrev pub left : ℕ → Call → View
  left id call = left_by now id connections (view call)

  -- Why a call stays: it has clients left, its approved users are being stored, or someone came or
  -- went within the timeout.
  abbrev pub Stays : ℕ → Call → Call → Type 0
  Stays id before after =
      (nobody (left id before) ≡ false)
      ⊎ (((persist (left id before).approved).1 ≡ true)
          ⊎ (now < after.client_added_or_removed + timeout))

  -- Why a call goes.
  abbrev pub Goes : ℕ → Call → Type 0
  Goes id before =
      (nobody (left id before) ≡ true)
      × ((persist (left id before).approved).1 ≡ false)
      × ((before.client_added_or_removed + timeout ≤ now) ⊎ (timeout ≡ 0))

  -- The calls that there were, and those that are left of them, in the same order.
  pub data Swept : List (ℕ × Call) → List (ℕ × Call) → Type 0 where
    none_left : Swept [] []
    stays :
        (id : ℕ) (before after : Call) {bs rest : List (ℕ × Call)}
        → clients_of (view after) ≡ clients_of (left id before)
        → Stays id before after
        → Swept bs rest
        → Swept ((id, before) ∷ bs) ((id, after) ∷ rest)
    goes :
        (id : ℕ) (before : Call) {bs rest : List (ℕ × Call)}
        → Goes id before
        → Swept bs rest
        → Swept ((id, before) ∷ bs) rest

-- The members of a call when these clients have gone.
abbrev drop_each : List ℕ → View → View
drop_each [] v = v
drop_each (id ∷ ids) v = drop_each ids (drop_one id v)

module _ (scale : ℕ → ℕ) (persist : ApprovedUsers → ApprovedUsers × Bool) where
  module _ (now timeout : ℕ) (cs : List (ConnectionId × Connection)) where
    abbrev swept : ℕ → Call → Call
    swept id call = drop_expired scale persist now (keep (expires now true) cs) id call

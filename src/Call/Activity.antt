-- ===== src/Call/Activity.antt =====
-- Whether a call of backend/src/call.rs goes on: `Call::activity`. `persist` is `ApprovedUsers::tick`
-- with its background task, which stands on tokio and the frontend's service: the approved users
-- after it, and whether the task is busy then.
use signal_calling_service.Prelude.{
  ℕ, ◌+◌, Bool, true, false, not, ◌&&◌, leb, if◌then◌else◌, List, [], ◌∷◌,
}
use signal_calling_service.Call.State.{Call, ApprovedUsers}

pub data CallActivity : Type 0 where
  inactive waiting active : CallActivity

abbrev pub nobody_in {ℓ} : {A : Type ℓ} → List A → Bool
nobody_in [] = true
nobody_in (c ∷ cs) = false

abbrev pub has_nobody : Call → Bool
has_nobody call =
    nobody_in call.clients && (nobody_in call.pending_clients && nobody_in call.removed_clients)

-- The activity of a call without clients, given what `persist` answered.
abbrev pub idle_activity : ℕ → ℕ → Call → ApprovedUsers × Bool → CallActivity × Call
idle_activity now inactivity_timeout call (users, busy) = (
  (if not busy && leb (call.client_added_or_removed + inactivity_timeout) now
      then inactive
      else waiting),
  record call { approved_users = users },
)

unfoldable pub activity :
    (ApprovedUsers → ApprovedUsers × Bool) → ℕ → ℕ → Call → CallActivity × Call
activity persist now inactivity_timeout call =
    if not (has_nobody call)
    then (active, call)
    else idle_activity now inactivity_timeout call (persist call.approved_users)

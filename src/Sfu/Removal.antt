-- ===== src/Sfu/Removal.antt =====
-- The removal of inactive connections and calls in `tick` of backend/src/sfu.rs: the connections'
-- `retain`, and the calls' `retain` with the clients that it drops. What `tick` does with the
-- connections and calls that stay is not part of this model. `persist` is as in Call/Activity.
pub mod Swept
use signal_calling_service.Prelude.{
  ℕ, ◌+◌, ◌≡◌, refl, ap, ap₂, ◌∙◌, Bool, true, false, not, ◌&&◌, ◌==◌, leb, if◌then◌else◌, List, [],
  ◌∷◌, map, keep, All, All-imp, keep-passes, arith,
}
use signal_calling_service.Collections.TwoGeneration.{map_remove}
use signal_calling_service.Ice.{byte_eq}
use signal_calling_service.Connection.{Connection, inactive}
use signal_calling_service.Call.State.{Call, ApprovedUsers}
use signal_calling_service.Call.Activity.{CallActivity, activity}
use signal_calling_service.Call.Members.{drop_client}
use signal_calling_service.Call.Members.View.{View, view}
use signal_calling_service.Call.Members.Spec.{drop_one}
use signal_calling_service.Call.Members.Removal.{view-drop_client}
use signal_calling_service.Sfu.{Sfu, ConnectionId}

-- Whether it is time to look for inactive connections.
abbrev pub check_for_inactivity : ℕ → Sfu → Bool
check_for_inactivity now sfu = leb (sfu.activity_checked + sfu.config.inactivity_check_interval) now

abbrev pub expires : ℕ → Bool → ConnectionId × Connection → Bool
expires now check e = check && inactive now e.1

abbrev pub expired : ℕ → Sfu → List (ConnectionId × Connection)
expired now sfu = keep (expires now (check_for_inactivity now sfu)) sfu.connection_by_id

-- `connection_id_by_ice_request_username.remove_entry` for each of them.
abbrev pub forget_usernames :
    List (ConnectionId × Connection) → List (List ℕ × ConnectionId) → List (List ℕ × ConnectionId)
forget_usernames [] m = m
forget_usernames (e ∷ es) m = forget_usernames es (map_remove byte_eq e.1.request_username m)

-- `expired_demux_ids_by_call_id` at a call.
abbrev pub expired_demux_ids : ℕ → List (ConnectionId × Connection) → List ℕ
expired_demux_ids call_id es = map (λ e. e.0.demux_id) (keep (λ e. e.0.call_id == call_id) es)

-- The calls' `retain` at a call.
abbrev pub keep_call : ℕ → CallActivity × Call → List (ℕ × Call) → List (ℕ × Call)
keep_call id (CallActivity.inactive, call) rest = rest
keep_call id (CallActivity.waiting, call) rest = (id, call) ∷ rest
keep_call id (CallActivity.active, call) rest = (id, call) ∷ rest

module _ (scale : ℕ → ℕ) (persist : ApprovedUsers → ApprovedUsers × Bool) where
  abbrev pub drop_clients : ℕ → List ℕ → Call → Call
  drop_clients now [] call = call
  drop_clients now (id ∷ ids) call = drop_clients now ids (drop_client scale id now call)

  abbrev pub drop_expired : ℕ → List (ConnectionId × Connection) → ℕ → Call → Call
  drop_expired now es id call = drop_clients now (expired_demux_ids id es) call

  unfoldable pub retain_calls :
      ℕ → ℕ → List (ConnectionId × Connection) → List (ℕ × Call) → List (ℕ × Call)
  retain_calls now timeout es [] = []
  retain_calls now timeout es ((id, call) ∷ calls) =
      keep_call id (activity persist now timeout (drop_expired now es id call))
        (retain_calls now timeout es calls)

  unfoldable pub remove_inactive : ℕ → Sfu → Sfu
  remove_inactive now sfu =
      let check = check_for_inactivity now sfu in
      record sfu {
        activity_checked = if check then now else sfu.activity_checked;
        connection_by_id = keep (λ e. not (expires now check e)) sfu.connection_by_id;
        connection_id_by_ice_request_username =
            forget_usernames (expired now sfu) sfu.connection_id_by_ice_request_username;
        call_by_call_id =
            retain_calls now sfu.config.inactivity_timeout (expired now sfu) sfu.call_by_call_id;
      }

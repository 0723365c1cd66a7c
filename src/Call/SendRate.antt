-- ===== src/Call/SendRate.antt =====
-- What congestion control tells a call of backend/src/call.rs: `set_target_send_rate` and
-- `set_outgoing_queue_drain_rate`.
pub mod Lowest
use signal_calling_service.Prelude.{ℕ, ◌+◌, ltb, Option, none, some, if◌then◌else◌, List}
use signal_calling_service.Call.Intervals.{min_target_send_rate_generation_interval}
use signal_calling_service.Call.State.{Client, Call}
use signal_calling_service.Call.Layers.{find_client, update_client}
use signal_calling_service.Call.Incoming.{Error, unknown_demux_id}

-- The lowest target of a generation of 2.5 seconds is kept for the next one.
unfoldable pub note_target_send_rate : ℕ → ℕ → Client → Client
note_target_send_rate new_target now receiver =
    if ltb receiver.next_min_target_generation_update_time now
    then record receiver {
      target_send_rate = new_target;
      old_generation_min_target_send_rate = receiver.current_generation_min_target_send_rate;
      current_generation_min_target_send_rate = new_target;
      next_min_target_generation_update_time = now + min_target_send_rate_generation_interval;
    }
    else record receiver {
      target_send_rate = new_target;
      current_generation_min_target_send_rate =
          if ltb new_target receiver.current_generation_min_target_send_rate
          then new_target
          else receiver.current_generation_min_target_send_rate;
    }

-- A change to a client that must be there, once it was looked for.
abbrev pub change_found : (Client → Client) → ℕ → Call → Option Client → Option Error × Call
change_found change id call none = (some (unknown_demux_id id), call)
change_found change id call (some receiver) =
    (none, record call { clients = update_client id change call.clients })

abbrev pub change_client : (Client → Client) → ℕ → Call → Option Error × Call
change_client change id call = change_found change id call (find_client id call.clients)

-- None is success.
unfoldable pub set_target_send_rate : ℕ → ℕ → ℕ → Call → Option Error × Call
set_target_send_rate receiver_demux_id new_target now call =
    change_client (note_target_send_rate new_target now) receiver_demux_id call

unfoldable pub set_outgoing_queue_drain_rate : ℕ → ℕ → Call → Option Error × Call
set_outgoing_queue_drain_rate receiver_demux_id rate call =
    change_client (λ c. record c { outgoing_queue_drain_rate = rate }) receiver_demux_id call

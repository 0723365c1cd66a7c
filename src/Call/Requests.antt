-- ===== src/Call/Requests.antt =====
-- What a device asks of the server: `handle_device_to_sfu` of backend/src/call.rs. `receive` is the
-- sender's reliable stream of messages, of the crate mrp: what it hands out for a message with a
-- header of its own, or none when the header is malformed. `scale` is as in `allocate_send_rate`.
pub mod Decisions
pub mod Hands
pub mod Spec
use signal_calling_service.Prelude.{
  ℕ, ◌+◌, ◌*◌, ◌%◌, ◌^◌, Bool, true, false, not, ◌&&◌, ◌||◌, ◌==◌, Option, none, some, unwrap_or,
  if◌then◌else◌, List, [], ◌∷◌, ◌>>=◌,
}
use signal_calling_service.Prelude.Dict.{insert}
use signal_calling_service.Call.Messages.{
  VideoRequest, VideoRequestMessage, RaiseHand, DeviceToSfu, same_video_request,
}
use signal_calling_service.Call.State.{Client, Call, min_target_send_rate}
use signal_calling_service.Call.Layers.{find_client, update_client, allocate_video_layers}
use signal_calling_service.Call.Members.{
  drop_client, approve_pending_client, deny_pending_client, force_remove_client, block_client,
}
use signal_calling_service.Call.Hands.{handle_raise_hand}
use signal_calling_service.Call.Incoming.{Error, unknown_demux_id, leave, invalid_mrp_header}

-- `DemuxId::try_from`: the low four bits are clear.
abbrev pub demux_id_try_from : ℕ → Option ℕ
demux_id_try_from raw = if raw % 16 == 0 then some raw else none

abbrev pub target : Option ℕ → Option ℕ
target t = t >>= demux_id_try_from

-- The heights by demux id, of the requests that have both; a later one replaces an earlier one.
abbrev pub requested_height : VideoRequest → Option (ℕ × ℕ)
requested_height r = r.height >>= λ height.
    r.demux_id >>= λ raw. demux_id_try_from raw >>= λ id. some (id, height % 2 ^ 16)

abbrev pub put_height : Option (ℕ × ℕ) → List (ℕ × ℕ) → List (ℕ × ℕ)
put_height none heights = heights
put_height (some e) heights = insert e.0 e.1 heights

abbrev pub requested_heights : List VideoRequest → List (ℕ × ℕ) → List (ℕ × ℕ)
requested_heights [] heights = heights
requested_heights (r ∷ rs) heights = requested_heights rs (put_height (requested_height r) heights)

abbrev pub max_rate : ℕ → Option ℕ → ℕ
max_rate default none = default
max_rate default (some kbps) = kbps * 1000

-- What a request for video changes of the client that sends it.
abbrev pub note_video_request : ℕ → VideoRequestMessage → Client → Client
note_video_request default r c = record c {
  requested_height_by_demux_id = requested_heights r.requests [];
  requested_max_send_rate = max_rate default r.max_kbps;
  active_speaker_height = unwrap_or r.active_speaker_height 0 % 2 ^ 16;
  video_request_proto = some r;
}

abbrev pub any_action : List (Option ℕ) → List (Option ℕ) → List (Option ℕ) → List (Option ℕ) → Bool
any_action [] [] [] [] = false
any_action _ _ _ _ = true

abbrev pub has_admin_action : DeviceToSfu → Bool
has_admin_action m = any_action m.approve m.deny m.remove m.block

-- The loop over the targets of one kind of action; a malformed one is only counted.
abbrev pub act_on : (ℕ → Call → Call) → Option ℕ → Call → Call
act_on act none call = call
act_on act (some id) call = act id call

unfoldable pub for_each_target : (ℕ → Call → Call) → List (Option ℕ) → Call → Call
for_each_target act [] call = call
for_each_target act (t ∷ ts) call = for_each_target act ts (act_on act (target t) call)

abbrev pub raise_if : ℕ → Option RaiseHand → ℕ → Call → Call
raise_if now none sender call = call
raise_if now (some m) sender call = handle_raise_hand now m sender call

abbrev pub ready_protos :
    (DeviceToSfu → Option (List DeviceToSfu)) → DeviceToSfu → Option (List DeviceToSfu)
ready_protos receive proto = if proto.has_mrp_header then receive proto else some (proto ∷ [])

module _ (scale : ℕ → ℕ) where
  abbrev pub request_video : Option VideoRequestMessage → ℕ → ℕ → Client → Call → Call
  request_video none sender_demux_id now sender call = call
  request_video (some r) sender_demux_id now sender call =
      allocate_video_layers scale sender_demux_id sender.target_send_rate
        (min_target_send_rate sender) now
        (record call {
          clients =
              update_client sender_demux_id
                (note_video_request call.default_requested_max_send_rate r) call.clients;
        })

  -- A repeated request is ignored.
  abbrev pub handle_video_request : Option VideoRequestMessage → ℕ → ℕ → Client → Call → Call
  handle_video_request r sender_demux_id now sender call =
      if same_video_request r sender.video_request_proto
      then call
      else request_video r sender_demux_id now sender call

  abbrev pub admin_actions : DeviceToSfu → ℕ → Call → Call
  admin_actions m now call =
      for_each_target (λ id. block_client scale id now) m.block
        (for_each_target (λ id. force_remove_client scale id now) m.remove
          (for_each_target (λ id. deny_pending_client scale id now) m.deny
            (for_each_target (λ id. approve_pending_client scale id now) m.approve call)))

  -- One message of a client.
  unfoldable pub handle_proto : DeviceToSfu → ℕ → ℕ → Client → Call → Call
  handle_proto m sender_demux_id now sender call =
      let asked = handle_video_request m.video_request sender_demux_id now sender call in
      let acted =
        if has_admin_action m && sender.is_admin then admin_actions m now asked else asked in
      raise_if now m.raise_hand sender_demux_id acted

  -- The loop over the messages that are ready: none when all were handled, or an error.
  unfoldable pub handle_protos : List DeviceToSfu → ℕ → ℕ → Call → Option Error × Call
  handle_protos [] sender_demux_id now call = (none, call)
  handle_protos (m ∷ ms) sender_demux_id now call =
      elim (find_client sender_demux_id call.clients) [
        | none ↦ (some (unknown_demux_id sender_demux_id), call)
        | some sender ↦
            handle_protos ms sender_demux_id now (handle_proto m sender_demux_id now sender call)
      ]

  abbrev pub handle_ready : Option (List DeviceToSfu) → ℕ → ℕ → Call → Option Error × Call
  handle_ready none sender_demux_id now call = (some invalid_mrp_header, call)
  handle_ready (some ms) sender_demux_id now call = handle_protos ms sender_demux_id now call

  -- There is never anything to forward: the answer is an error, or none.
  unfoldable pub handle_device_to_sfu :
      (DeviceToSfu → Option (List DeviceToSfu)) → DeviceToSfu → ℕ → ℕ → Call → Option Error × Call
  handle_device_to_sfu receive proto sender_demux_id now call =
      if proto.leave
      then (some leave, drop_client scale sender_demux_id now call)
      else elim (find_client sender_demux_id call.clients) [
        | none ↦ (some (unknown_demux_id sender_demux_id), call)
        | some sender ↦ handle_ready (ready_protos receive proto) sender_demux_id now call
      ]

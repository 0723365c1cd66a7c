-- ===== src/Call/Tick.antt =====
-- `Call::tick` of backend/src/call.rs: what a call does regularly, and the messages it sends to its
-- clients. The background task of the approved users and the reliable streams of messages, which are
-- in other crates, take no part. `per` and `smooth` are as in Rates, `scale` as in
-- `allocate_send_rate`.
pub mod Told
pub mod Announced
use signal_calling_service.Prelude.{
  ℕ, ◌+◌, ◌/◌, ◌%◌, ◌^◌, Bool, true, false, not, ◌&&◌, ◌||◌, ◌==◌, ltb, leb, is_some, max, Option,
  none, some, unwrap_or, if◌then◌else◌, List, [], ◌∷◌, ◌++◌, map, keep,
}
use signal_calling_service.Prelude.Dict.{get}
use signal_calling_service.Rates.{update}
use signal_calling_service.Call.Intervals.{
  send_rate_reallocation_interval, active_speaker_calculation_interval, stats_message_interval,
  removed_clients_update_interval, raised_hands_message_interval,
}
use signal_calling_service.Call.Messages.{SfuToDevice, nothing_to_say}
use signal_calling_service.Call.Simulcast.{SimulcastForwarder, forwarding_ssrc, needs_key_frame}
use signal_calling_service.Call.Ssrc.{video1, video2, to_ssrc}
use signal_calling_service.Call.State.{
  IncomingVideoState, NonParticipantClient, Client, Call, RaisedHand,
}
use signal_calling_service.Call.Layers.{find_client, reallocate_each}
use signal_calling_service.Call.Speaker.{calculate_active_speaker}
use signal_calling_service.Call.KeyFrames.{send_key_frame_requests_if_its_been_too_long}

-- A packet with a message, numbered per client; the timestamp is the number.
pub record Update : Type 0 where
  pub seqnum : ℕ
  pub message : SfuToDevice

abbrev pub UpdateToSend : Type 0
UpdateToSend = ℕ × Update

-- `encode_sfu_to_device_update`: the packet, and who it is for with the next number.
abbrev pub encode_update : SfuToDevice → NonParticipantClient → UpdateToSend × NonParticipantClient
encode_update message c = (
  (c.demux_id, record { seqnum = c.next_server_to_client_data_rtp_seqnum; message = message }),
  record c { next_server_to_client_data_rtp_seqnum = c.next_server_to_client_data_rtp_seqnum + 1 },
)

-- The loops over clients, each with a message of its own.
unfoldable pub update_each : (Client → SfuToDevice) → List Client → List UpdateToSend × List Client
update_each message [] = ([], [])
update_each message (c ∷ cs) =
    let (sent, info) = encode_update (message c) c.info in
    let (rest, left) = update_each message cs in (sent ∷ rest, record c { info = info } ∷ left)

unfoldable pub update_each_other :
    SfuToDevice → List NonParticipantClient → List UpdateToSend × List NonParticipantClient
update_each_other message [] = ([], [])
update_each_other message (c ∷ cs) =
    let (sent, c') = encode_update message c in
    let (rest, left) = update_each_other message cs in (sent ∷ rest, c' ∷ left)

-- The senders whose video a client gets or waits for, with the heights.
abbrev pub shown : SimulcastForwarder → Bool
shown f = is_some (forwarding_ssrc f) || is_some (needs_key_frame f)

abbrev pub with_video : Client → List (ℕ × ℕ)
with_video c =
    map (λ e. (e.0, unwrap_or (get e.0 c.allocated_height_by_sender_demux_id) 0))
      (keep (λ e. shown e.1) c.video_forwarder_by_sender_demux_id)

abbrev pub kbps : ℕ → ℕ
kbps bps = bps / 1000 % 2 ^ 32

abbrev pub speaker_due : Bool → Bool → ℕ → Call → Bool
speaker_due added_or_removed just_changed now call =
    just_changed
    || (added_or_removed
        || leb (call.active_speaker_update_sent + call.active_speaker_message_interval) now)

abbrev pub client_update : Bool → Option ℕ → Bool → Client → SfuToDevice
client_update added_or_removed speaker send_stats c = record nothing_to_say {
  device_joined_or_left = added_or_removed;
  speaker = speaker;
  current_devices = some (with_video c);
  stats =
      if send_stats
      then some (kbps c.target_send_rate, (kbps c.ideal_send_rate, kbps c.allocated_send_rate))
      else none;
}

-- `send_update_proto_to_participating_clients`
unfoldable pub send_update_to_participating : Bool → Bool → ℕ → Call → List UpdateToSend × Call
send_update_to_participating added_or_removed just_changed now call =
    let due = speaker_due added_or_removed just_changed now call in
    let speaker = if due then call.active_speaker_id else none in
    let send_stats = leb (call.stats_update_sent + stats_message_interval) now in
    let noted = record call {
      active_speaker_update_sent = if due then now else call.active_speaker_update_sent;
    } in
    if added_or_removed || (is_some speaker || send_stats)
    then (let (sent, clients) =
          update_each (client_update added_or_removed speaker send_stats) call.clients in
        (
          sent,
          record noted {
            clients = clients;
            stats_update_sent = if send_stats then now else call.stats_update_sent;
          },
        ))
    else ([], noted)

-- `send_update_proto_to_pending_clients`
unfoldable pub send_update_to_pending : Bool → Call → List UpdateToSend × Call
send_update_to_pending added_or_removed call =
    if added_or_removed
    then (let (sent, clients) =
          update_each_other (record nothing_to_say { device_joined_or_left = true })
            call.pending_clients in
        (sent, record call { pending_clients = clients }))
    else ([], call)

abbrev pub is_empty {ℓ} : {A : Type ℓ} → List A → Bool
is_empty [] = true
is_empty (x ∷ xs) = false

-- `send_update_proto_to_removed_clients`
unfoldable pub send_update_to_removed : ℕ → Call → List UpdateToSend × Call
send_update_to_removed now call =
    if is_empty call.removed_clients
      || ltb now (call.removed_clients_update_sent + removed_clients_update_interval)
    then ([], call)
    else (let (sent, clients) =
          update_each_other (record nothing_to_say { removed = true }) call.removed_clients in
        (sent, record call { removed_clients_update_sent = now; removed_clients = clients }))

abbrev pub raised : List (ℕ × ℕ) → List RaisedHand → List (ℕ × ℕ)
raised seqnums hands =
    map (λ h. (h.demux_id, unwrap_or (get h.demux_id seqnums) 0)) (keep (λ h. h.raise) hands)

abbrev pub hands_update : List (ℕ × ℕ) → List RaisedHand → Client → SfuToDevice
hands_update seqnums hands c = record nothing_to_say {
  raised_hands = some (raised seqnums hands, unwrap_or (get c.demux_id seqnums) 0);
}

-- `send_raised_hands_proto_to_clients`
unfoldable pub send_raised_hands : ℕ → Call → List UpdateToSend × Call
send_raised_hands now call =
    if leb (call.raised_hands_sent + raised_hands_message_interval) now
    then elim call.raised_hands [
      | none ↦ ([], call)
      | some hands ↦
          let (sent, clients) =
            update_each (hands_update call.raised_hands_seqnums hands) call.clients in
          (sent, record call { clients = clients; raised_hands_sent = now })
    ]
    else ([], call)

-- The key frames of its higher layers that a new active speaker is asked for.
abbrev pub max_height : List ℕ → ℕ
max_height [] = 0
max_height (h ∷ hs) = max h (max_height hs)

abbrev pub requested_speaker_height : ℕ → Call → ℕ
requested_speaker_height id call =
    max_height
      (map (λ c. c.active_speaker_height) (keep (λ c. not (c.demux_id == id)) call.clients))

abbrev pub speaker_layer_height : ℕ → Call → Option ℕ
speaker_layer_height id call = elim (find_client id call.clients) [
  | none ↦ none
  | some c ↦ c.incoming_video0.height
]

unfoldable pub speaker_requests : Option ℕ → Call → List (ℕ × ℕ)
speaker_requests none call = []
speaker_requests (some id) call = elim (speaker_layer_height id call) [
  | none ↦ []
  | some height ↦
      if ltb height (requested_speaker_height id call)
      then (id, to_ssrc video1 id) ∷ (id, to_ssrc video2 id) ∷ []
      else []
]

abbrev pub speaker_if_due : ℕ → Call → Option ℕ × Call
speaker_if_due now call =
    if ltb (call.active_speaker_calculated + active_speaker_calculation_interval) now
    then calculate_active_speaker now (record call { active_speaker_calculated = now })
    else (none, call)

abbrev pub allocated_too_long_ago : ℕ → Client → Bool
allocated_too_long_ago now c = ltb (c.send_rate_allocated + send_rate_reallocation_interval) now

abbrev pub came_or_went : Call → Bool
came_or_went call = ltb call.clients_update_sent call.client_added_or_removed

abbrev pub note_update : ℕ → Call → Call
note_update now call = record call {
  clients_update_sent = if came_or_went call then now else call.clients_update_sent;
}

-- What a tick sends: messages and requests for key frames.
pub record Ticked : Type 0 where
  pub updates : List UpdateToSend
  pub key_frame_requests : List (ℕ × ℕ)
  pub call : Call

-- The messages, to all kinds of clients in turn.
unfoldable pub send_updates : Bool → Bool → ℕ → Call → List UpdateToSend × Call
send_updates added_or_removed just_changed now call =
    let a = send_update_to_participating added_or_removed just_changed now call in
    let b = send_update_to_pending added_or_removed a.1 in
    let c = send_update_to_removed now b.1 in
    let d = send_raised_hands now c.1 in (a.0 ++ (b.0 ++ (c.0 ++ d.0)), d.1)

module _ (per smooth : ℕ → ℕ → ℕ) (scale : ℕ → ℕ) where
  abbrev pub update_rate : ℕ → IncomingVideoState → IncomingVideoState
  update_rate now v = record v { rate_tracker = update per smooth now v.rate_tracker }

  abbrev pub update_rates : ℕ → Client → Client
  update_rates now c = record c {
    incoming_video0 = update_rate now c.incoming_video0;
    incoming_video1 = update_rate now c.incoming_video1;
    incoming_video2 = update_rate now c.incoming_video2;
  }

  unfoldable pub reallocate_target_send_rates_if_its_been_too_long : ℕ → Call → Call
  reallocate_target_send_rates_if_its_been_too_long now call =
      reallocate_each scale now (keep (allocated_too_long_ago now) call.clients) call

  abbrev pub refreshed : ℕ → Call → Call
  refreshed now call = record call { clients = map (update_rates now) call.clients }

  -- The part before the messages: the new active speaker, and whether a client came or went.
  unfoldable pub prepare_tick : ℕ → Call → (Option ℕ × Bool) × Call
  prepare_tick now call =
      let spoken = speaker_if_due now (refreshed now call) in
      (
        (spoken.0, came_or_went spoken.1),
        reallocate_target_send_rates_if_its_been_too_long now (note_update now spoken.1),
      )

  unfoldable pub tick : ℕ → Call → Ticked
  tick now call =
      let prepared = prepare_tick now call in
      let updated = send_updates prepared.0.1 (is_some prepared.0.0) now prepared.1 in
      let requested = send_key_frame_requests_if_its_been_too_long now updated.1 in
      record {
        updates = updated.0;
        key_frame_requests = requested.0 ++ speaker_requests prepared.0.0 requested.1;
        call = requested.1;
      }

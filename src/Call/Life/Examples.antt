-- ===== src/Call/Life/Examples.antt =====
-- The theorems on the dispatch, the messages and the ticks of a call at concrete inputs.
use signal_calling_service.Prelude.{
  ℕ, ◌+◌, ◌/◌, ◌≤◌, ◌≡◌, refl, ap, length, true, false, none, some, List, [], ◌∷◌, inl, arith,
}
use signal_calling_service.Vp8.{ParsedHeader}
use signal_calling_service.Call.Intervals.{key_frame_request_resend_interval}
use signal_calling_service.Call.Messages.{DeviceToSfu}
use signal_calling_service.Call.State.{
  NonParticipantClient, Client, Call, same_region, new_client, identities, min_target_send_rate,
}
use signal_calling_service.Call.Ssrc.{layer_from_ssrc, demux_from_ssrc}
use signal_calling_service.Call.Simulcast.{needs_key_frame, new_forwarder, switch_at_next_key_frame}
use signal_calling_service.Call.Members.Run.{join, denies, step, run}
use signal_calling_service.Call.Members.View.{view}
use signal_calling_service.Call.Incoming.{MediaPacket}
use signal_calling_service.Call.Media.Outcome.{Outcome}
use signal_calling_service.Call.Requests.{handle_device_to_sfu}
use signal_calling_service.Call.Requests.Spec.{
  view_device, handle_device_to_sfu-view, handle_device_to_sfu-powerless,
}
use signal_calling_service.Call.Speaker.{
  Spoken, calculate_active_speaker, calculate_active_speaker-Spoken,
}
use signal_calling_service.Call.KeyFrames.{
  send_key_frame_requests_if_its_been_too_long, request_each, incoming_video_height,
}
use signal_calling_service.Call.KeyFrames.Spaced.{rounds, send_key_frame_requests-spaced}
use signal_calling_service.Call.Tick.{tick}
use signal_calling_service.Call.Tick.Told.{Told}
use signal_calling_service.Call.Tick.Announced.{tick-Told-run}
use signal_calling_service.Call.Members.{deny_pending_client, will_add_or_remove_client}
use signal_calling_service.Call.Life.{Happening, asked, sent, key_frames_requested, rated, ticked}
use signal_calling_service.Call.Layers.{find_client}
use signal_calling_service.Call.SendRate.Lowest.{set_all, Within, min_target_send_rate-set_all}
use signal_calling_service.Call.Examples.{nine_tenths, strict_call}

abbrev middle : ℕ → ℕ → ℕ
middle a b = (a + b) / 2

-- Client 16 is an admin, client 32 is not and waits for a key frame of client 16, client 48 waits.
abbrev identity : ℕ → NonParticipantClient
identity id = record {
  demux_id = id;
  user_id = id / 16;
  is_admin = false;
  region_relation = same_region;
  next_server_to_client_data_rtp_seqnum = 1;
}

abbrev admin : Client
unfolding new_client
admin = new_client (record (identity 16) { is_admin = true }) 600000 20000000 1

abbrev guest : Client
unfolding new_client new_forwarder
guest = record (new_client (identity 32) 600000 20000000 1) {
  video_forwarder_by_sender_demux_id =
      (16, record (new_forwarder 18) { switching = switch_at_next_key_frame 18 }) ∷ [];
}

abbrev small_call : Call
small_call = record strict_call {
  clients = admin ∷ guest ∷ [];
  pending_clients = identity 48 ∷ [];
  client_added_or_removed = 1;
}

-- The sender approves the one who waits and blocks a target that is no demux id.
abbrev decision : DeviceToSfu
decision = record {
  video_request = none;
  leave = false;
  approve = some 48 ∷ [];
  deny = [];
  remove = [];
  block = some 7 ∷ [];
  raise_hand = none;
  has_mrp_header = false;
}

abbrev spoken_word : MediaPacket
spoken_word = record {
  rtp = record { ssrc = 16; seqnum = 1000; timestamp = 5 };
  payload_type = 102;
  audio_level = some 60;
  rotation = none;
  descriptor = none;
  size_bytes = 120;
  payload = 1 ∷ 2 ∷ 3 ∷ [];
}

-- A packet with a message.
abbrev note : MediaPacket
note = record spoken_word {
  rtp = record { ssrc = 1; seqnum = 1; timestamp = 1 };
  payload_type = 101;
  audio_level = none;
}

abbrev talk : List (ℕ × Happening)
talk =
    (1, asked (join 16 1 true same_region))
    ∷ (2, asked (join 32 2 false same_region))
    ∷ (3, sent 16 note (some (record decision { approve = some 32 ∷ [] })) none)
    ∷ (4, sent 16 spoken_word none none)
    ∷ (5, key_frames_requested 32 (18 ∷ []))
    ∷ (6, rated 32 500000)
    ∷ (1000000000, ticked)
    ∷ []

handle_device_to_sfu-view_example :
    view (handle_device_to_sfu nine_tenths (λ _. none) decision 16 2 small_call).1
    ≡ view_device (λ _. none) decision 16 (view small_call)
handle_device_to_sfu-view_example =
    handle_device_to_sfu-view nine_tenths (λ _. none) decision 16 2 small_call

handle_device_to_sfu-powerless_example :
    view (handle_device_to_sfu nine_tenths (λ _. none) decision 32 2 small_call).1 ≡ view small_call
unfolding admin guest
handle_device_to_sfu-powerless_example =
    handle_device_to_sfu-powerless nine_tenths (λ _. none) decision 32 2 small_call guest refl refl
      refl

calculate_active_speaker-Spoken_example : Spoken small_call (calculate_active_speaker 2 small_call)
calculate_active_speaker-Spoken_example =
    calculate_active_speaker-Spoken 2 small_call admin (guest ∷ []) refl

send_key_frame_requests-spaced_example : 300000000 + key_frame_request_resend_interval ≤ 500000000
unfolding send_key_frame_requests_if_its_been_too_long request_each guest needs_key_frame
    incoming_video_height demux_from_ssrc layer_from_ssrc rounds
send_key_frame_requests-spaced_example =
    send_key_frame_requests-spaced [] (300000000, small_call) (500000000, small_call)
      ((400000000, small_call) ∷ []) 18 (omega arith, tt) (inl refl) (inl refl)

-- The one who waits is denied, and another client joins and waits.
tick-Told-run_example :
    let after =
      run nine_tenths small_call ((3, denies 48) ∷ (4, join 64 9 false same_region) ∷ []) in
    let updates = (tick middle middle nine_tenths 5 after).updates in
    Told updates (identities after.clients) × Told updates after.pending_clients
unfolding step deny_pending_client will_add_or_remove_client
tick-Told-run_example =
    tick-Told-run middle middle nine_tenths 5 3 (denies 48) ((4, join 64 9 false same_region) ∷ [])
      small_call (omega arith) (λ e. let n : 0 ≡ 1 = ap (λ p. length p.1) e in omega arith)
      (omega arith, tt)

-- A delta frame with both numbers.
abbrev delta_frame : List ℕ
delta_frame = 144 ∷ 192 ∷ 129 ∷ 2 ∷ 3 ∷ 1 ∷ 0 ∷ 0 ∷ []

abbrev delta_header : ParsedHeader
delta_header = record {
  picture_id = some 258;
  tl0_pic_idx = some 3;
  is_key_frame = false;
  resolution = none;
}

-- The rate falls, and then rises while the low rate is remembered.
abbrev rising : List (ℕ × ℕ)
rising = (400000, 1000000000) ∷ (900000, 2000000000) ∷ (900000, 2500000000) ∷ []

min_target_send_rate-set_all_example :
    (c' : Client) × (find_client 32 (set_all 32 ((100000, 10) ∷ rising) small_call).clients
      ≡ some c')
    × (min_target_send_rate c' ≤ 100000)
unfolding admin guest Within
min_target_send_rate-set_all_example =
    min_target_send_rate-set_all 32 100000 10 rising small_call guest refl
      (omega arith, omega arith, (omega arith, omega arith, (omega arith, omega arith, tt)))

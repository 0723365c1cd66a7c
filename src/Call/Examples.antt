-- ===== src/Call/Examples.antt =====
-- The theorems on calls at concrete inputs.
use signal_calling_service.Prelude.{
  take, ◌+◌, ℕ, ◌*◌, ◌/◌, ◌≤◌, true, false, none, some, List, [], ◌∷◌, ◌≡◌, refl, arith, All, Any,
  max,
}
use signal_calling_service.Call.Single.{forward_all, default_forwarder}
use signal_calling_service.Call.Single.Order.{InOrder, forward_all-InOrder}
use signal_calling_service.Call.Simulcast.{
  VideoHeader, vp8, IncomingRtp, SimulcastForwarder, new_forwarder, set_desired_ssrc,
  forward_vp8_rtp, forwarding_ssrc, needs_key_frame, do_not_switch, switch_at_next_key_frame,
  forwarding, first_ids,
}
use signal_calling_service.Call.Simulcast.History as History
use signal_calling_service.Call.Simulcast.Switch.{
  Numbers, all_ids, advance, ids_for, NoWrap, FitsWire, forward_vp8_rtp-key_frame,
}
use signal_calling_service.Call.Simulcast.Desire.{set_desired_ssrc-keeps_switch}
use signal_calling_service.Call.Allocation.{
  AllocatableVideo, AllocatableVideoLayer, allocate_send_rate, allocatable_rate,
  ideal_video_layer_index,
}
use signal_calling_service.Call.Allocation.Total.{total, total-allocate_send_rate}
use signal_calling_service.Call.Allocation.Ideal.{IsIdeal, ideal_video_layer_index-IsIdeal}
use signal_calling_service.Call.Allocation.Chosen.{IsLayerOf, allocate_send_rate-IsLayerOf}
use signal_calling_service.Call.Ssrc.{
  video1, layer_from_ssrc, demux_from_ssrc, to_ssrc, to_rtx_ssrc, to_ssrc-round_trip,
}
use signal_calling_service.Call.State.{Call, same_region}
use signal_calling_service.Call.Members.{add_client, has_user}
use signal_calling_service.Call.Members.View.{view}
use signal_calling_service.Call.Members.Spec.{newcomer}
use signal_calling_service.Call.Members.Run.{
  Request, join, approves, denies, leave, removes, blocks, run, view_run, view-run,
}
use signal_calling_service.Call.Members.Devices.{known, arrived, run-known}
use signal_calling_service.Call.Members.Admission.{OnlyAdmitted}
use signal_calling_service.Call.Members.Rights.{run-OnlyAdmitted}
use signal_calling_service.Call.Members.Blocked.{turned_away, add_client-run_blocked}

-- Nine tenths, rounded down.
abbrev pub nine_tenths : ℕ → ℕ
nine_tenths rate = rate * 9 / 10

-- A call in which newcomers need approval and user 7 is blocked.
abbrev pub strict_call : Call
strict_call = record {
  new_clients_require_approval = true;
  persist_approval_for_all_users_who_join = false;
  active_speaker_message_interval = 1_000_000_000;
  initial_target_send_rate = 600000;
  default_requested_max_send_rate = 20000000;
  clients = [];
  pending_clients = [];
  removed_clients = [];
  client_added_or_removed = 0;
  clients_update_sent = 0;
  approved_users = record { users = []; modified = false };
  denied_users = [];
  blocked_users = 7 ∷ [];
  active_speaker_id = none;
  active_speaker_calculated = 0;
  active_speaker_update_sent = 0;
  raised_hands = none;
  raised_hands_seqnums = [];
  stats_update_sent = 0;
  removed_clients_update_sent = 0;
  raised_hands_sent = 0;
  key_frame_requests_sent = 0;
  key_frame_request_sent_by_ssrc = [];
  call_time = record { empty = 0; solo = 0; pair = 0; many = 0 };
}

-- An admin joins, user 2 waits with two devices and is approved, user 3 is denied twice, and user 2
-- is removed with one device and blocked with the other.
abbrev history : List (ℕ × Request)
history =
    (1, join 16 1 true same_region)
    ∷ (2, join 32 2 false same_region)
    ∷ (3, join 48 2 false same_region)
    ∷ (4, approves 32)
    ∷ (5, join 64 3 false same_region)
    ∷ (6, denies 64)
    ∷ (7, join 80 3 false same_region)
    ∷ (8, denies 80)
    ∷ (9, removes 32)
    ∷ (10, blocks 48)
    ∷ (11, leave 16)
    ∷ []

view-run_example : view (run nine_tenths strict_call history) ≡ view_run (view strict_call) history
view-run_example = view-run nine_tenths strict_call history

run-OnlyAdmitted_example : OnlyAdmitted (view (run nine_tenths strict_call history))
unfolding view
run-OnlyAdmitted_example = run-OnlyAdmitted nine_tenths strict_call history (λ need. tt)

add_client-run_blocked_example :
    let before = run nine_tenths strict_call history in
    let (status, after) = add_client nine_tenths 96 7 true same_region 12 before in
    (status, view after) ≡ turned_away (newcomer 96 7 true same_region) (view before)
add_client-run_blocked_example =
    add_client-run_blocked nine_tenths strict_call history 96 7 true same_region 12 refl

-- The history without its last entry, in which the admin leaves.
abbrev staying : List (ℕ × Request)
staying = take 10 history

run-known_example :
    known (has_user 2) (view (run nine_tenths strict_call staying))
    ≡ known (has_user 2) (view strict_call) + arrived (has_user 2) staying
run-known_example =
    run-known (has_user 2) nine_tenths strict_call staying
      (tt, (tt, (tt, (tt, (tt, (tt, (tt, (tt, (tt, (tt, tt))))))))))

-- Packets out of order, with a repeat and a large gap.
forward_all-InOrder_example :
    InOrder (forward_all default_forwarder [] (5 ∷ 7 ∷ 6 ∷ 7 ∷ 100000 ∷ 100001 ∷ [])).0
forward_all-InOrder_example =
    forward_all-InOrder (5 ∷ 7 ∷ 6 ∷ 7 ∷ 100000 ∷ 100001 ∷ []) (omega arith)

abbrev key_frame : VideoHeader
key_frame =
    vp8 (record {
      is_key_frame = true;
      resolution = none;
      picture_id = some 10;
      tl0_pic_idx = some 3;
    })

abbrev packet_of : ℕ → IncomingRtp
packet_of ssrc = record { ssrc = ssrc; seqnum = 50; timestamp = 9000 }

abbrev sent_so_far : Numbers
sent_so_far = record { seqnum = 8; timestamp = 90; picture = 4; tl0 = 2; frame = 0 }

-- It forwards SSRC 18 and waits for SSRC 20.
abbrev switching_forwarder : SimulcastForwarder
switching_forwarder = record {
  outgoing_ssrc = 2;
  state = forwarding (record {
    incoming_ssrc = 18;
    needs_key_frame = false;
    first_incoming = first_ids (packet_of 18) key_frame;
    first_outgoing = all_ids sent_so_far;
    max_incoming = first_ids (packet_of 18) key_frame;
  });
  switching = switch_at_next_key_frame 20;
  max_outgoing = all_ids sent_so_far;
}

sent_so_far-NoWrap : NoWrap (advance sent_so_far)
sent_so_far-NoWrap = record {
  seqnum_fits = omega arith;
  timestamp_fits = omega arith;
  picture_fits = omega arith;
  tl0_fits = omega arith;
  frame_fits = omega arith;
}

awaited-FitsWire : FitsWire (packet_of 20) key_frame
awaited-FitsWire = record {
  timestamp_fits = omega arith;
  picture_id_fits = omega arith;
  tl0_pic_idx_fits = omega arith;
  frame_number_fits = tt;
}

forward_vp8_rtp-key_frame_example :
    let (sent, f') = forward_vp8_rtp switching_forwarder (packet_of 20) key_frame in
    (sent ≡ some (2, ids_for key_frame (advance sent_so_far)))
    × (forwarding_ssrc f' ≡ some 20)
    × (f'.switching ≡ do_not_switch)
    × (needs_key_frame f' ≡ none)
    × (f'.max_outgoing ≡ all_ids (advance sent_so_far))
forward_vp8_rtp-key_frame_example =
    forward_vp8_rtp-key_frame switching_forwarder (packet_of 20) key_frame sent_so_far refl
      sent_so_far-NoWrap awaited-FitsWire refl refl refl

set_desired_ssrc-keeps_switch_example :
    forwarding_ssrc
      (forward_vp8_rtp (set_desired_ssrc switching_forwarder (some 18)) (packet_of 20) key_frame).1
    ≡ some 20
set_desired_ssrc-keeps_switch_example =
    set_desired_ssrc-keeps_switch switching_forwarder 18 (packet_of 20) key_frame sent_so_far refl
      refl refl sent_so_far-NoWrap awaited-FitsWire refl refl

abbrev arrivals : List History.Event
arrivals =
    History.desire (some 20)
    ∷ History.packet (packet_of 20) key_frame
    ∷ History.packet (packet_of 20) key_frame
    ∷ History.desire (some 18)
    ∷ History.packet (packet_of 18) key_frame
    ∷ []

run-AllInOrder_example : History.AllInOrder (History.run (new_forwarder 2) [] arrivals).0
run-AllInOrder_example = History.run-AllInOrder 2 arrivals

abbrev layer_of : ℕ → ℕ → AllocatableVideoLayer
layer_of rate height = record { incoming_rate = rate; incoming_height = height }

abbrev wide_video : AllocatableVideo
wide_video = record {
  sender_demux_id = 32;
  layer0 = layer_of 100 180;
  layer1 = layer_of 500 360;
  layer2 = layer_of 1500 720;
  requested_height = 360;
  allocated_layer_index = some 0;
  interesting = none;
}

abbrev small_video : AllocatableVideo
small_video = record {
  sender_demux_id = 48;
  layer0 = layer_of 80 180;
  layer1 = layer_of 0 0;
  layer2 = layer_of 0 0;
  requested_height = 720;
  allocated_layer_index = none;
  interesting = some 5;
}

-- No layer has a height yet.
abbrev new_video : AllocatableVideo
new_video = record small_video { layer0 = layer_of 80 0 }

total-allocate_send_rate_example :
    let rates =
      total
        (allocate_send_rate nine_tenths 700 500 900 100
          (wide_video ∷ small_video ∷ [])).by_sender in
    (rates ≤ 900)
    × (rates
        ≤ max (allocatable_rate nine_tenths 700 100 900) (allocatable_rate nine_tenths 500 100 900))
total-allocate_send_rate_example =
    total-allocate_send_rate nine_tenths 700 500 900 100 (wide_video ∷ small_video ∷ [])

allocate_send_rate-IsLayerOf_example :
    All
      (λ e. Any (IsLayerOf e) (wide_video ∷ small_video ∷ []))
      (allocate_send_rate nine_tenths 700 500 900 100 (wide_video ∷ small_video ∷ [])).by_sender
allocate_send_rate-IsLayerOf_example =
    allocate_send_rate-IsLayerOf nine_tenths 700 500 900 100 (wide_video ∷ small_video ∷ [])

ideal_video_layer_index-IsIdeal_example : IsIdeal wide_video 1
unfolding ideal_video_layer_index
ideal_video_layer_index-IsIdeal_example = ideal_video_layer_index-IsIdeal wide_video 1 refl

to_ssrc-round_trip_example :
    (layer_from_ssrc (to_ssrc video1 48) ≡ some video1)
    × (demux_from_ssrc (to_ssrc video1 48) ≡ 48)
    × (layer_from_ssrc (to_rtx_ssrc video1 48) ≡ none)
    × (demux_from_ssrc (to_rtx_ssrc video1 48) ≡ 48)
to_ssrc-round_trip_example = to_ssrc-round_trip video1 48 refl (omega arith)

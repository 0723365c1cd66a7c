-- ===== src/Examples.antt =====
-- The theorems on packets, queues, caches and audio at concrete inputs.
use signal_calling_service.Prelude.{
  ℕ, ◌-◌, ◌*◌, ◌/◌, ◌%◌, ◌^◌, true, false, Option, none, some, is_some, unwrap_or, List, [], ◌∷◌,
  ◌≡◌, ◌⊎◌, refl, arith, All, max,
}
use signal_calling_service.Counters.{expand_truncated_counter}
use signal_calling_service.Counters.Laws.{seqnum_width, expand_truncated_counter-truncated}
use signal_calling_service.Rtp.Packet.{Packet, ssrc, to_rtx, is_past_deadline}
use signal_calling_service.Rtp.Nack.{new_nack_sender, send_nacks}
use signal_calling_service.Rtp.Nack.Invariant.{IsMissing}
use signal_calling_service.Rtp.Nack.Missing as Missing
use signal_calling_service.Rtp.Rtx.{RtxSender, new_rtx_sender, remember_sent, next_seqnum}
use signal_calling_service.Rtp.Rtx.Numbers as Numbers
use signal_calling_service.Collections.TwoGeneration.Kept.{Insertion}
use signal_calling_service.Collections.Ring.{new_ring}
use signal_calling_service.Collections.Ring.Last.{push_all, last, push_all-new_ring}
use signal_calling_service.Audio.{LevelsTracker, default_levels}
use signal_calling_service.Pacer.{Config, Pacer, new_pacer, queue_is_empty}
use signal_calling_service.Pacer.Send.{dequeue, calculate_next_media_send_time}
use signal_calling_service.Pacer.Keeps as Calls
use signal_calling_service.Pacer.Debt.{DebtBounded, run-DebtBounded}
use signal_calling_service.Pacer.Sizes.{IsSized, run-IsSized}
use signal_calling_service.Pacer.Live.{all_queued}
use signal_calling_service.Pacer.Order.{dequeue-first_live, dequeue-wakes}

expand_truncated_counter-truncated_example :
    expand_truncated_counter (65540 % 2 ^ 16) 65530 16 ≡ (65540, max 65530 65540)
expand_truncated_counter-truncated_example =
    expand_truncated_counter-truncated seqnum_width 65540 65530 (omega arith) (omega arith)
      (omega arith)

-- A video packet of 14 bytes that entered at 1000000000.
abbrev video_packet : ℕ → Packet
video_packet n = record {
  marker = false;
  payload_type_in_header = 108;
  ssrc_in_header = 18;
  seqnum_in_header = n;
  seqnum_in_payload = none;
  pending_retransmission = false;
  tcc_seqnum = none;
  tcc_seqnum_range = none;
  payload_start_in_header = 12;
  payload_end_in_header = 14;
  deadline = some 4_000_000_000;
  serialized = 128 ∷ 108 ∷ 0 ∷ 1 ∷ 0 ∷ 0 ∷ 0 ∷ 0 ∷ 0 ∷ 0 ∷ 0 ∷ 18 ∷ 1 ∷ 2 ∷ [];
}

-- Numbers 2, 3 and 5 are missing; 3 comes late.
abbrev receptions : List Missing.Event
receptions =
    Missing.received 1
    ∷ Missing.received 4
    ∷ Missing.nacks 1000 200
    ∷ Missing.received 3
    ∷ Missing.received 6
    ∷ []

send_nacks-IsMissing_example :
    let s = Missing.run (new_nack_sender 16) receptions in
    All
      (IsMissing (Missing.all_received [] receptions) s.max_received)
      (unwrap_or (send_nacks 1500 200 s).0 [])
send_nacks-IsMissing_example =
    Missing.send_nacks-IsMissing 16 1500 200 receptions
      (omega arith, (omega arith, (omega arith, (omega arith, tt))))

abbrev resendings : List Numbers.Event
resendings =
    Numbers.remembers (video_packet 1) 1_000_000_000
    ∷ Numbers.increments 19
    ∷ Numbers.resends 18 1 1_100_000_000 0
    ∷ Numbers.resends 18 1 1_200_000_000 0
    ∷ Numbers.marks 18 1
    ∷ Numbers.resends 18 1 1_300_000_000 0
    ∷ []

run-numbers_example :
    let (log, s) = Numbers.run resendings [] (new_rtx_sender 10_000_000_000 0) in
    Numbers.numbers 19 log ≡ Numbers.down_from (next_seqnum 19 s - 1)
run-numbers_example = Numbers.run-numbers 10_000_000_000 0 19 resendings

abbrev remembering : RtxSender
remembering = remember_sent (video_packet 1) 1_000_000_000 (new_rtx_sender 10_000_000_000 0)

-- Other keys are inserted within a lifetime of 10, over two generations.
abbrev insertions : List (Insertion ℕ ℕ)
insertions =
    record { key = 2; value = 20; now = 12 }
    ∷ record { key = 3; value = 30; now = 15 }
    ∷ record { key = 2; value = 21; now = 19 }
    ∷ []

abbrev pushed : List ℕ
pushed = 1 ∷ 2 ∷ 3 ∷ 4 ∷ 5 ∷ []

push_all-new_ring_example : (push_all pushed (new_ring 3)).values ≡ last 3 pushed
push_all-new_ring_example = push_all-new_ring 3 pushed

abbrev loud : LevelsTracker
loud = record default_levels {
  levels = record { limit = 50; values = 90 ∷ 91 ∷ 92 ∷ 93 ∷ 94 ∷ [] };
}

-- `rate * duration` and `size / rate`, rounded down, for durations in nanoseconds.
abbrev times : ℕ → ℕ → ℕ
times rate duration = rate * duration / 1_000_000_000

abbrev over : ℕ → ℕ → ℕ
over bits rate = bits * 1_000_000_000 / rate

abbrev slow : Config
slow = record { media_send_rate = 1000; padding_send_rate = 500; padding_ssrc = some 19 }

abbrev no_padding : ℕ → Option Packet
no_padding ssrc = none

abbrev calls : List (ℕ × Calls.Event)
calls =
    (1_000_000_000, Calls.enqueues (video_packet 1))
    ∷ (1_000_000_001, Calls.enqueues (video_packet 2))
    ∷ (1_000_000_002, Calls.force_enqueues (to_rtx 1 (video_packet 1)))
    ∷ (1_100_000_000, Calls.dequeues no_padding)
    ∷ (1_200_000_000, Calls.dequeues no_padding)
    ∷ (5_000_000_000, Calls.configures slow)
    ∷ []

run-DebtBounded_example : DebtBounded times over (Calls.run times over (new_pacer slow) calls)
run-DebtBounded_example = run-DebtBounded times over slow calls

run-IsSized_example : IsSized (Calls.run times over (new_pacer slow) calls)
run-IsSized_example = run-IsSized times over slow calls

-- The first video packet is past its deadline at 3000000000, the second is not.
abbrev waiting : Pacer
waiting = record (new_pacer slow) {
  video_queue =
      record (video_packet 1) { deadline = some 2_000_000_000 }
      ∷ video_packet 2
      ∷ video_packet 3
      ∷ [];
  queued_size = 336;
  last_sent = some 1_000_000_000;
  media_debt = 112;
}

dequeue-first_live_example :
    let sends = dequeue times over no_padding 3_000_000_000 waiting in
    (sends.packet ≡ some (video_packet 2)) × (all_queued sends.pacer ≡ video_packet 3 ∷ [])
unfolding calculate_next_media_send_time is_past_deadline
dequeue-first_live_example =
    dequeue-first_live times over no_padding 3_000_000_000 waiting (video_packet 2)
      (video_packet 3 ∷ []) refl refl

dequeue-wakes_example :
    let sends = dequeue times over no_padding 3_000_000_000 waiting in
    (queue_is_empty sends.pacer ≡ true) ⊎ (is_some sends.next ≡ true)
unfolding calculate_next_media_send_time
dequeue-wakes_example = dequeue-wakes times over no_padding 3_000_000_000 waiting refl refl

-- ===== src/Pacer.antt =====
-- `Pacer` of backend/src/pacer.rs: media leaves at a limited rate, from two queues, and padding
-- fills the gaps. Instants and durations are nanoseconds, sizes bits, rates bits per second. The
-- queues and what a call hands out are here, the operations in Pacer/Send. Metrics and logging are
-- left out.
pub mod Send
pub mod Keeps
pub mod Debt
pub mod Sizes
pub mod Live
pub mod Order
use signal_calling_service.Prelude.{
  ℕ, ◌+◌, ◌-◌, ◌*◌, min, max, Bool, true, false, not, ◌&&◌, ◌||◌, Option, none, some, List, [], ◌∷◌,
  ◌++◌, ltb, leb, ◌==◌, if◌then◌else◌,
}
use signal_calling_service.Rtp.Packet.{Packet, size, is_rtx, is_past_deadline, entry_time}

pub record Config : Type 0 where
  pub media_send_rate : ℕ
  pub padding_send_rate : ℕ
  pub padding_ssrc : Option ℕ

-- 500 milliseconds.
abbrev pub max_debt_in_time : ℕ
max_debt_in_time = 500_000_000

pub record Pacer : Type 0 where
  pub config : Config
  pub video_queue : List Packet
  pub rtx_queue : List Packet
  pub queued_size : ℕ
  pub last_sent : Option ℕ
  pub media_debt : ℕ
  pub padding_debt : ℕ

abbrev pub new_pacer : Config → Pacer
new_pacer config = record {
  config = config;
  video_queue = [];
  rtx_queue = [];
  queued_size = 0;
  last_sent = none;
  media_debt = 0;
  padding_debt = 0;
}

abbrev pub is_empty : List Packet → Bool
is_empty [] = true
is_empty (p ∷ ps) = false

abbrev pub queue_is_empty : Pacer → Bool
queue_is_empty s = is_empty s.video_queue && is_empty s.rtx_queue

-- None means never.
abbrev pub past_send_time : Option ℕ → ℕ → Bool
past_send_time none now = false
past_send_time (some t) now = leb t now

-- `push_back` on the queue of the packet's kind.
unfoldable pub force_enqueue : Packet → Pacer → Pacer
force_enqueue media s =
    let sized : Pacer = record s { queued_size = s.queued_size + size media } in
    if is_rtx media
    then record sized { rtx_queue = sized.rtx_queue ++ (media ∷ []) }
    else record sized { video_queue = sized.video_queue ++ (media ∷ []) }

-- What `pop_queue` finds: the first packet that is not past its deadline, the rest of the queue and
-- the queued size.
pub record Popped : Type 0 where
  pub found : Option Packet
  pub queue : List Packet
  pub left_size : ℕ

unfoldable pub pop_queue : List Packet → ℕ → ℕ → Popped
pop_queue [] queued_size now = record { found = none; queue = []; left_size = queued_size }
pop_queue (media ∷ queue) queued_size now =
    let left = queued_size - size media in
    let rest = pop_queue queue left now in
    if is_past_deadline now media
    then rest
    else record { found = some media; queue = queue; left_size = left }

abbrev pub pop_rtx : Pacer → ℕ → Option Packet × Pacer
pop_rtx s now =
    let r = pop_queue s.rtx_queue s.queued_size now in
    (r.found, record s { rtx_queue = r.queue; queued_size = r.left_size })

abbrev pub pop_video : Pacer → ℕ → Option Packet × Pacer
pop_video s now =
    let r = pop_queue s.video_queue s.queued_size now in
    (r.found, record s { video_queue = r.queue; queued_size = r.left_size })

-- `pop_rtx(now).or_else(|| pop_video(now))`
unfoldable pub or_video : Option Packet → ℕ → Pacer → Option Packet × Pacer
or_video none now s = pop_video s now
or_video (some media) now s = (some media, s)

abbrev pub pop_media : Pacer → ℕ → Option Packet × Pacer
pop_media s now = or_video (pop_rtx s now).0 now (pop_rtx s now).1

-- What a call hands out: a packet to send now, and when to come back.
pub record Sends : Type 0 where
  pub packet : Option Packet
  pub next : Option ℕ
  pub pacer : Pacer

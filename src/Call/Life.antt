-- ===== src/Call/Life.antt =====
-- The life of a call of backend/src/call.rs: any sequence of what the SFU makes it do.
pub mod Messages
pub mod Ticks
pub mod Arrivals
mod Examples
use signal_calling_service.Prelude.{ℕ, refl, Option, List, [], ◌∷◌}
use signal_calling_service.Call.Messages.{DeviceToSfu}
use signal_calling_service.Call.State.{Call}
use signal_calling_service.Call.Owned.{Owned}
use signal_calling_service.Call.Members.Run.{Request, step}
use signal_calling_service.Call.Incoming.{MediaPacket}
use signal_calling_service.Call.Media.Outcome.{Outcome, handle_media_rtp-Wired}
use signal_calling_service.Call.Tick.{tick}
use signal_calling_service.Call.SendRate.{set_target_send_rate, set_outgoing_queue_drain_rate}
use signal_calling_service.Call.Dispatch.{handle_rtp, handle_key_frame_requests}

-- A request of the SFU; a packet of a client, with the message that is decoded from it if it has one
-- and those that the client's reliable stream hands out for that; a client's requests for key frames;
-- a target send rate or the rate at which a client's queue drains; or a tick.
pub data Happening : Type 0 where
  asked : Request → Happening
  sent : ℕ → MediaPacket → Option DeviceToSfu → Option (List DeviceToSfu) → Happening
  key_frames_requested : ℕ → List ℕ → Happening
  rated queue_drained : ℕ → ℕ → Happening
  ticked : Happening

module _ (mean per smooth : ℕ → ℕ → ℕ) (scale : ℕ → ℕ) where
  abbrev pub happen : Call → ℕ × Happening → Call
  happen call (now, asked r) = step scale call (now, r)
  happen call (now, sent sender p decoded ready) =
      (handle_rtp (λ _. decoded) (λ _. ready) mean scale sender p now call).1
  happen call (now, key_frames_requested id ssrcs) = (handle_key_frame_requests id ssrcs now call).1
  happen call (now, rated id rate) = (set_target_send_rate id rate now call).1
  happen call (now, queue_drained id rate) = (set_outgoing_queue_drain_rate id rate call).1
  happen call (now, ticked) = (tick per smooth scale now call).call

  unfoldable pub live : Call → List (ℕ × Happening) → Call
  live call [] = call
  live call (h ∷ hs) = live (happen call h) hs

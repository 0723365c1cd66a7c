-- ===== src/Call/KeyFrames.antt =====
-- `send_key_frame_requests_if_its_been_too_long` of backend/src/call.rs: which senders are asked for
-- a key frame, and how often. A request is the SSRC it is for and the client that it goes to.
pub mod Spaced
use signal_calling_service.Prelude.{
  ℕ, ◌+◌, ◌≤◌, ◌≡◌, refl, ap, subst, ◌∙◌, Bool, true, false, ◌&&◌, ◌==◌, ltb, Option, none, some,
  unwrap_or, if◌then◌else◌, if-elim, Bool-cases, inl, inr, List, [], ◌∷◌, ◌>>=◌, Any, arith, ◌⊎◌,
  ==_iff,
}
use signal_calling_service.Prelude.Dict.{get, insert, get-insert, get-put, get-other}
use signal_calling_service.Call.Intervals.{
  key_frame_request_calculation_interval, key_frame_request_resend_interval,
  high_res_key_frame_request_resend_interval,
}
use signal_calling_service.Call.Simulcast.{SimulcastForwarder, needs_key_frame}
use signal_calling_service.Call.Ssrc.{
  LayerId, audio, video0, video1, video2, rtp_data, layer_from_ssrc, demux_from_ssrc,
}
use signal_calling_service.Call.State.{Client, Call, set_insert}
use signal_calling_service.Call.Layers.{find_client}

abbrev pub height_of : LayerId → Client → Option ℕ
height_of audio c = none
height_of video0 c = c.incoming_video0.height
height_of video1 c = c.incoming_video1.height
height_of video2 c = c.incoming_video2.height
height_of rtp_data c = none

unfoldable pub incoming_video_height : ℕ → Call → Option ℕ
incoming_video_height ssrc call = find_client (demux_from_ssrc ssrc) call.clients >>= λ c.
    layer_from_ssrc ssrc >>= λ layer. height_of layer c

-- `desired_incoming_ssrcs`, over the forwarders of one receiver and of all.
abbrev pub want : Option ℕ → List ℕ → List ℕ
want none ssrcs = ssrcs
want (some ssrc) ssrcs = set_insert ssrc ssrcs

abbrev pub wanted_by : List (ℕ × SimulcastForwarder) → List ℕ → List ℕ
wanted_by [] ssrcs = ssrcs
wanted_by ((id, f) ∷ fs) ssrcs = wanted_by fs (want (needs_key_frame f) ssrcs)

abbrev pub desired_incoming_ssrcs : List Client → List ℕ → List ℕ
desired_incoming_ssrcs [] ssrcs = ssrcs
desired_incoming_ssrcs (c ∷ cs) ssrcs =
    desired_incoming_ssrcs cs (wanted_by c.video_forwarder_by_sender_demux_id ssrcs)

-- Whether a request for an SSRC has to wait, given when it was sent last and the height of the video.
abbrev pub too_soon : ℕ → ℕ → Option ℕ → Bool
too_soon now height none = false
too_soon now height (some sent) =
    if ltb now (sent + key_frame_request_resend_interval)
    then true
    else ltb 720 height && ltb now (sent + high_res_key_frame_request_resend_interval)

-- The requests, and when each was sent last.
unfoldable pub request_each : ℕ → Call → List ℕ → List (ℕ × ℕ) → List (ℕ × ℕ) × List (ℕ × ℕ)
request_each now call [] sent = ([], sent)
request_each now call (ssrc ∷ ssrcs) sent =
    let wait = too_soon now (unwrap_or (incoming_video_height ssrc call) 0) (get ssrc sent) in
    let rest = request_each now call ssrcs (if wait then sent else insert ssrc now sent) in
    if wait then rest else ((demux_from_ssrc ssrc, ssrc) ∷ rest.0, rest.1)

unfoldable pub send_key_frame_requests_if_its_been_too_long : ℕ → Call → List (ℕ × ℕ) × Call
send_key_frame_requests_if_its_been_too_long now call =
    if ltb now (call.key_frame_requests_sent + key_frame_request_calculation_interval)
    then ([], call)
    else (let (requests, sent) =
          request_each now call (desired_incoming_ssrcs call.clients [])
            call.key_frame_request_sent_by_ssrc in
        (
          requests,
          record call { key_frame_requests_sent = now; key_frame_request_sent_by_ssrc = sent },
        ))

abbrev pub Requested : ℕ → List (ℕ × ℕ) → Type 0
Requested ssrc rs = Any (λ r. r.1 ≡ ssrc) rs

-- ===== src/Call/Media.antt =====
-- The media of a call: `handle_media_rtp` of backend/src/call.rs with `Client`'s operations that it
-- calls. `mean` is as in Audio.
pub mod Recipients
pub mod Outcome
use signal_calling_service.Prelude.{
  ℕ, ◌%◌, ◌^◌, Bool, true, false, not, ◌&&◌, ◌||◌, ◌==◌, Option, none, some, opt_eq, unwrap_or,
  if◌then◌else◌, List, [], ◌∷◌, ◌>>=◌, Result, ok, err, ok_or, and_then,
}
use signal_calling_service.Prelude.Dict.{get, insert}
use signal_calling_service.Vp8 as Vp8
use signal_calling_service.Vp8.{PixelSize, read_header, modify_header}
use signal_calling_service.Rtp.{
  DependencyDescriptor, VideoRotation, no_rotation, clockwise90, clockwise180, clockwise270,
}
use signal_calling_service.Rates.{push_bytes}
use signal_calling_service.Audio.{push_level}
use signal_calling_service.Call.Ids.{Vp8RewrittenIds}
use signal_calling_service.Call.Single as Single
use signal_calling_service.Call.Single.{SingleSsrcRtpForwarder, default_forwarder}
use signal_calling_service.Call.Simulcast.{
  VideoHeader, vp8, dependency_descriptor, IncomingRtp, SimulcastForwarder, Sent, forward_vp8_rtp,
}
use signal_calling_service.Call.Ssrc.{
  LayerId, audio, video0, video1, video2, rtp_data, layer_from_ssrc, demux_from_ssrc,
}
use signal_calling_service.Call.State.{IncomingVideoState, Client, Call}
use signal_calling_service.Call.Layers.{find_client, update_client}
use signal_calling_service.Call.Incoming.{
  Error, MediaPacket, invalid_rtp_layer_id, rewrite, unauthorized_rtp_ssrc, unknown_demux_id,
  update_incoming_video, vp8_payload_type,
}

-- `forward_audio_rtp` and `forward_data_rtp`, on the forwarders of one kind: what is sent, and the
-- forwarders.
abbrev pub rewritten : MediaPacket → Option ℕ → Option MediaPacket
rewritten p none = none
rewritten p (some outgoing) = some (rewrite p p.ssrc outgoing p.timestamp)

unfoldable pub forward_single :
    MediaPacket
    → List (ℕ × SingleSsrcRtpForwarder)
    → Option MediaPacket × List (ℕ × SingleSsrcRtpForwarder)
forward_single p forwarders =
    let sender = demux_from_ssrc p.ssrc in
    let (outgoing, forwarder) =
      Single.forward_rtp (unwrap_or (get sender forwarders) default_forwarder) p.seqnum in
    (rewritten p outgoing, insert sender forwarder forwarders)

abbrev pub forward_audio_rtp : MediaPacket → Client → Option MediaPacket × Client
forward_audio_rtp p c =
    let (sent, forwarders) = forward_single p c.audio_forwarder_by_sender_demux_id in
    (sent, record c { audio_forwarder_by_sender_demux_id = forwarders })

abbrev pub forward_data_rtp : MediaPacket → Client → Option MediaPacket × Client
forward_data_rtp p c =
    let (sent, forwarders) = forward_single p c.data_forwarder_by_sender_demux_id in
    (sent, record c { data_forwarder_by_sender_demux_id = forwarders })

-- The numbers that are written into a video packet.
abbrev pub set_frame_number : Option ℕ → MediaPacket → MediaPacket
set_frame_number none p = p
set_frame_number (some n) p = elim p.descriptor [
  | none ↦ p
  | some d ↦ record p {
    descriptor = some (record d { truncated_frame_number = some (n % 2 ^ 16) });
  }
]

abbrev pub set_picture_ids : Option ℕ → Option ℕ → MediaPacket → MediaPacket
set_picture_ids (some picture_id) (some tl0_pic_idx) p = record p {
  payload = modify_header p.payload (picture_id % 2 ^ 16) (tl0_pic_idx % 2 ^ 8);
}
set_picture_ids _ _ p = p

abbrev pub rewrite_video : MediaPacket → Sent → MediaPacket
rewrite_video p (ssrc, ids) =
    set_picture_ids ids.picture_id ids.tl0_pic_idx
      (set_frame_number ids.frame_number (rewrite p ssrc ids.seqnum (ids.timestamp % 2 ^ 32)))

abbrev pub video_sent : MediaPacket → Option Sent → Option MediaPacket
video_sent p none = none
video_sent p (some sent) = some (rewrite_video p sent)

abbrev pub forward_by :
    MediaPacket → VideoHeader → Option SimulcastForwarder → Client → Option MediaPacket × Client
forward_by p h none c = (none, c)
forward_by p h (some forwarder) c =
    let (sent, forwarder') = forward_vp8_rtp forwarder p.rtp h in
    (
      video_sent p sent,
      record c {
        video_forwarder_by_sender_demux_id =
            insert (demux_from_ssrc p.ssrc) forwarder' c.video_forwarder_by_sender_demux_id;
      },
    )

unfoldable pub forward_video_rtp :
    MediaPacket → Option VideoHeader → Client → Option MediaPacket × Client
forward_video_rtp p none c = (none, c)
forward_video_rtp p (some h) c =
    forward_by p h (get (demux_from_ssrc p.ssrc) c.video_forwarder_by_sender_demux_id) c

-- What one receiver is sent. Silence is not forwarded.
unfoldable pub forward_to :
    LayerId → MediaPacket → Option VideoHeader → Client → Option MediaPacket × Client
forward_to audio p h c = if opt_eq p.audio_level (some 0) then (none, c) else forward_audio_rtp p c
forward_to rtp_data p h c = forward_data_rtp p c
forward_to video0 p h c = forward_video_rtp p h c
forward_to video1 p h c = forward_video_rtp p h c
forward_to video2 p h c = forward_video_rtp p h c

abbrev pub RtpToSend : Type 0
RtpToSend = ℕ × MediaPacket

abbrev pub push_to : ℕ → Option MediaPacket → List RtpToSend → List RtpToSend
push_to id none rest = rest
push_to id (some p) rest = (id, p) ∷ rest

-- The loop over the receivers.
unfoldable pub forward_each :
    ℕ → LayerId → MediaPacket → Option VideoHeader → List Client → List RtpToSend × List Client
forward_each sender layer p h [] = ([], [])
forward_each sender layer p h (c ∷ cs) =
    let (rest, left) = forward_each sender layer p h cs in
    if c.demux_id == sender
    then (rest, c ∷ left)
    else (let (sent, c') = forward_to layer p h c in (push_to c.demux_id sent rest, c' ∷ left))

module _ (mean : ℕ → ℕ → ℕ) where
  -- The header of a video packet, and the sender with what it tells of its video.
  abbrev pub received_video : MediaPacket → ℕ → Client → Result Error (Option VideoHeader × Client)
  received_video p now sender =
      if p.payload_type == vp8_payload_type
      then (and_then (update_incoming_video p now sender) λ r. ok (some r.0, r.1))
      else ok (none, sender)

  abbrev pub hear : Option ℕ → Client → Client
  hear none sender = sender
  hear (some level) sender = record sender {
    incoming_audio_levels = push_level mean level sender.incoming_audio_levels;
  }

  abbrev pub forward_media :
      ℕ → MediaPacket → Option VideoHeader → Call → Result Error (List RtpToSend) × Call
  forward_media sender p h call = elim (layer_from_ssrc p.ssrc) [
    | none ↦ (err invalid_rtp_layer_id, call)
    | some layer ↦
        let (sent, clients) = forward_each sender layer p h call.clients in
        (ok sent, record call { clients = clients })
  ]

  abbrev pub media_received :
      ℕ
      → MediaPacket
      → Result Error (Option VideoHeader × Client)
      → Call
      → Result Error (List RtpToSend) × Call
  media_received sender_demux_id p (err e) call = (err e, call)
  media_received sender_demux_id p (ok (h, sender)) call =
      forward_media sender_demux_id p h (record call {
        clients = update_client sender_demux_id (λ _. hear p.audio_level sender) call.clients;
      })

  unfoldable pub handle_media_rtp :
      ℕ → MediaPacket → ℕ → Call → Result Error (List RtpToSend) × Call
  handle_media_rtp sender_demux_id p now call = elim (find_client sender_demux_id call.clients) [
    | none ↦ (err (unknown_demux_id sender_demux_id), call)
    | some sender ↦
        if demux_from_ssrc p.ssrc == sender_demux_id
        then media_received sender_demux_id p (received_video p now sender) call
        else (err (unauthorized_rtp_ssrc (demux_from_ssrc p.ssrc) sender_demux_id), call)
  ]

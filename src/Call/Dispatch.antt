-- ===== src/Call/Dispatch.antt =====
-- What a client sends to a call of backend/src/call.rs: `handle_rtp` and
-- `handle_key_frame_requests`. `decode` is the generated decoder of messages, `receive`, `mean` and
-- `scale` are as in Call/Requests and Call/Media.
use signal_calling_service.Prelude.{
  ℕ, Bool, ◌&&◌, ◌==◌, Option, none, some, Result, ok, err, if◌then◌else◌, List, [], ◌∷◌,
}
use signal_calling_service.Prelude.Dict.{get, insert}
use signal_calling_service.Call.Messages.{DeviceToSfu}
use signal_calling_service.Call.Simulcast.{SimulcastForwarder, set_needs_key_frame}
use signal_calling_service.Call.Ssrc.{demux_from_ssrc}
use signal_calling_service.Call.State.{Client, Call}
use signal_calling_service.Call.Layers.{find_client, update_client}
use signal_calling_service.Call.Incoming.{MediaPacket, Error, invalid_client_to_server_protobuf}
use signal_calling_service.Call.Media.{RtpToSend, handle_media_rtp}
use signal_calling_service.Call.Requests.{handle_device_to_sfu}
use signal_calling_service.Call.KeyFrames.{send_key_frame_requests_if_its_been_too_long}

abbrev pub client_server_data_ssrc : ℕ
client_server_data_ssrc = 1

abbrev pub client_server_data_payload_type : ℕ
client_server_data_payload_type = 101

abbrev pub is_client_to_server_data : MediaPacket → Bool
is_client_to_server_data p =
    (p.ssrc == client_server_data_ssrc) && (p.payload_type == client_server_data_payload_type)

abbrev pub nothing_to_forward : Option Error × Call → Result Error (List RtpToSend) × Call
nothing_to_forward (none, call) = (ok [], call)
nothing_to_forward (some e, call) = (err e, call)

module _ (decode : List ℕ → Option DeviceToSfu) (receive : DeviceToSfu → Option (List DeviceToSfu))
    (mean : ℕ → ℕ → ℕ) (scale : ℕ → ℕ) where
  abbrev pub handle_decoded :
      Option DeviceToSfu → ℕ → ℕ → Call → Result Error (List RtpToSend) × Call
  handle_decoded none sender_demux_id now call = (err invalid_client_to_server_protobuf, call)
  handle_decoded (some proto) sender_demux_id now call =
      nothing_to_forward (handle_device_to_sfu scale receive proto sender_demux_id now call)

  unfoldable pub handle_rtp : ℕ → MediaPacket → ℕ → Call → Result Error (List RtpToSend) × Call
  handle_rtp sender_demux_id p now call =
      if is_client_to_server_data p
      then handle_decoded (decode p.payload) sender_demux_id now call
      else handle_media_rtp mean sender_demux_id p now call

-- The loop over the requests, by their SSRCs.
abbrev pub mark_found : ℕ → Option SimulcastForwarder → Client → Client
mark_found id none c = c
mark_found id (some f) c = record c {
  video_forwarder_by_sender_demux_id =
      insert id (set_needs_key_frame f) c.video_forwarder_by_sender_demux_id;
}

abbrev pub mark_requested : ℕ → Client → Client
mark_requested ssrc c =
    mark_found (demux_from_ssrc ssrc)
      (get (demux_from_ssrc ssrc) c.video_forwarder_by_sender_demux_id) c

unfoldable pub mark_all_requested : List ℕ → Client → Client
mark_all_requested [] c = c
mark_all_requested (ssrc ∷ ssrcs) c = mark_all_requested ssrcs (mark_requested ssrc c)

-- A request is the SSRC that it is for.
unfoldable pub handle_key_frame_requests : ℕ → List ℕ → ℕ → Call → List (ℕ × ℕ) × Call
handle_key_frame_requests requester_id ssrcs now call =
    elim (find_client requester_id call.clients) [
      | none ↦ ([], call)
      | some requester ↦ send_key_frame_requests_if_its_been_too_long now (record call {
        clients = update_client requester_id (mark_all_requested ssrcs) call.clients;
      })
    ]

-- ===== src/Call/Ssrc.antt =====
-- `LayerId` and `DemuxIdExt` of backend/src/call.rs: the SSRCs of a client's streams.
use signal_calling_service.Prelude.{
  ℕ, zero, suc, ◌+◌, ◌-◌, ◌%◌, ◌^◌, ◌<◌, ◌≡◌, Option, none, some, ◌==◌, if◌then◌else◌, arith,
}

pub data LayerId : Type 0 where
  audio video0 video1 video2 rtp_data : LayerId

-- The discriminants.
abbrev pub offset : LayerId → ℕ
offset audio = 0
offset video0 = 2
offset video1 = 4
offset video2 = 6
offset rtp_data = 13

unfoldable pub layer_from_ssrc : ℕ → Option LayerId
layer_from_ssrc ssrc =
    if ssrc % 16 == 0
    then some audio
    else if ssrc % 16 == 2
    then some video0
    else if ssrc % 16 == 4
    then some video1
    else if ssrc % 16 == 6
    then some video2
    else if ssrc % 16 == 13
    then some rtp_data
    else none

-- `DemuxId::from_ssrc`: the low four bits are cleared.
unfoldable pub demux_from_ssrc : ℕ → ℕ
demux_from_ssrc ssrc = ssrc - ssrc % 16

unfoldable pub layer_from_video_index : ℕ → Option LayerId
layer_from_video_index zero = some video0
layer_from_video_index (suc zero) = some video1
layer_from_video_index (suc (suc zero)) = some video2
layer_from_video_index (suc (suc (suc i))) = none

abbrev video_index : Option LayerId → Option ℕ
video_index (some video0) = some 0
video_index (some video1) = some 1
video_index (some video2) = some 2
video_index _ = none

unfoldable pub layer_index_from_ssrc : ℕ → Option ℕ
unfolding layer_from_ssrc
layer_index_from_ssrc ssrc = video_index (layer_from_ssrc ssrc)

-- A demux id has its low four bits clear, so `|` with the discriminant is a sum.
unfoldable pub to_ssrc : LayerId → ℕ → ℕ
to_ssrc l demux_id = demux_id + offset l

-- `LayerId::to_rtx_ssrc`, by `rtp::to_rtx_ssrc`: one further, wrapping.
unfoldable pub to_rtx_ssrc : LayerId → ℕ → ℕ
unfolding to_ssrc
to_rtx_ssrc l demux_id = (to_ssrc l demux_id + 1) % 2 ^ 32

-- From the SSRC of a layer of a client both the layer and the client's demux id are read back. Its
-- RTX SSRC has the same demux id and is the SSRC of no layer. (A demux id is a 32-bit number with
-- its low four bits clear.)
pub to_ssrc-round_trip :
    (l : LayerId) (demux_id : ℕ)
    → demux_id % 16 ≡ 0
    → demux_id < 2 ^ 32
    → (layer_from_ssrc (to_ssrc l demux_id) ≡ some l)
      × (demux_from_ssrc (to_ssrc l demux_id) ≡ demux_id)
      × (layer_from_ssrc (to_rtx_ssrc l demux_id) ≡ none)
      × (demux_from_ssrc (to_rtx_ssrc l demux_id) ≡ demux_id)
unfolding layer_from_ssrc demux_from_ssrc to_rtx_ssrc
to_ssrc-round_trip audio d h b = ground arith
to_ssrc-round_trip video0 d h b = ground arith
to_ssrc-round_trip video1 d h b = ground arith
to_ssrc-round_trip video2 d h b = ground arith
to_ssrc-round_trip rtp_data d h b = ground arith

-- A video layer's index comes back from the SSRC that it gives.
pub layer_index_from_ssrc-to_ssrc :
    (i : ℕ) (l : LayerId) (demux_id : ℕ)
    → layer_from_video_index i ≡ some l
    → demux_id % 16 ≡ 0
    → layer_index_from_ssrc (to_ssrc l demux_id) ≡ some i
unfolding layer_from_video_index layer_index_from_ssrc to_ssrc
layer_index_from_ssrc-to_ssrc zero l d e h = ground arith
layer_index_from_ssrc-to_ssrc (suc zero) l d e h = ground arith
layer_index_from_ssrc-to_ssrc (suc (suc zero)) l d e h = ground arith
layer_index_from_ssrc-to_ssrc (suc (suc (suc i))) l d e h = ground arith

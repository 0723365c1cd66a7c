-- ===== src/Call/Layers.antt =====
-- `Call::allocate_video_layers` of backend/src/call.rs and what repeats it for every client, with
-- `update_padding_ssrcs`. `scale` is as in `allocate_send_rate`.
use signal_calling_service.Prelude.{
  ℕ, ◌+◌, true, false, ◌&&◌, Option, none, some, List, [], ◌∷◌, map, ◌==◌, ltb, opt_eq,
  if◌then◌else◌, unwrap_or, find, keep, ◌>>=◌,
}
use signal_calling_service.Prelude.Dict.{get, insert}
use signal_calling_service.Call.Ssrc.{
  video0, to_ssrc, to_rtx_ssrc, layer_from_video_index, layer_index_from_ssrc,
}
use signal_calling_service.Call.Simulcast.{
  SimulcastForwarder, new_forwarder, set_desired_ssrc, forwarding_ssrc,
}
use signal_calling_service.Call.Allocation.{
  AllocatableVideo, AllocatedVideo, allocate_send_rate, ideal_send_rate, requested_base_rate,
}
use signal_calling_service.Call.State.{Client, Call, as_allocatable_layer, min_target_send_rate}

-- `find_client`.
abbrev pub find_client : ℕ → List Client → Option Client
find_client id = find (λ c. c.demux_id == id)

-- A change to the client that `find_client_mut` finds.
unfoldable pub update_client : ℕ → (Client → Client) → List Client → List Client
update_client id g [] = []
update_client id g (c ∷ cs) = if c.demux_id == id then g c ∷ cs else c ∷ update_client id g cs

-- What a receiver asks of a sender, and what it is sent of it now.
unfoldable pub allocatable_video : Option ℕ → Client → Client → AllocatableVideo
allocatable_video active_speaker_id receiver sender =
    let wanted : ℕ = unwrap_or (get sender.demux_id receiver.requested_height_by_demux_id) 1 in
    record {
      sender_demux_id = sender.demux_id;
      layer0 = as_allocatable_layer sender.incoming_video0;
      layer1 = as_allocatable_layer sender.incoming_video1;
      layer2 = as_allocatable_layer sender.incoming_video2;
      requested_height =
          if opt_eq (some sender.demux_id) active_speaker_id
            && ltb wanted receiver.active_speaker_height
          then receiver.active_speaker_height
          else wanted;
      allocated_layer_index =
          get sender.demux_id receiver.video_forwarder_by_sender_demux_id >>= λ f.
          forwarding_ssrc f >>= layer_index_from_ssrc;
      interesting = sender.became_active_speaker;
    }

abbrev pub others : ℕ → List Client → List Client
others id = keep (λ c. if c.demux_id == id then false else true)

-- The SSRC that a sender's forwarder is told to forward. (`layer_index` is at most 2, so the
-- `unwrap` of the source does not fail.)
unfoldable pub desired_ssrc : ℕ → List (ℕ × AllocatedVideo) → Option ℕ
desired_ssrc sender allocated = get sender allocated >>= λ a.
    layer_from_video_index a.layer_index >>= λ l. some (to_ssrc l a.sender_demux_id)

-- One round of the loop over the senders.
unfoldable pub steer : List (ℕ × AllocatedVideo) → ℕ → Client → Client
steer allocated sender receiver =
    let forwarder : SimulcastForwarder =
      unwrap_or (get sender receiver.video_forwarder_by_sender_demux_id)
        (new_forwarder (to_ssrc video0 sender)) in
    record receiver {
      allocated_height_by_sender_demux_id = elim (get sender allocated) [
        | none ↦ receiver.allocated_height_by_sender_demux_id
        | some a ↦ insert sender a.height receiver.allocated_height_by_sender_demux_id
      ];
      video_forwarder_by_sender_demux_id =
          insert sender (set_desired_ssrc forwarder (desired_ssrc sender allocated))
            receiver.video_forwarder_by_sender_demux_id;
    }

unfoldable pub steer_all : List (ℕ × AllocatedVideo) → List AllocatableVideo → Client → Client
steer_all allocated [] receiver = receiver
steer_all allocated (v ∷ vs) receiver =
    steer_all allocated vs (steer allocated v.sender_demux_id receiver)

-- `.values().map(rate).sum()`
abbrev pub sum_allocated : List (ℕ × AllocatedVideo) → ℕ
sum_allocated [] = 0
sum_allocated ((id, a) ∷ m) = a.rate + sum_allocated m

module _ (scale : ℕ → ℕ) where
  -- What becomes of the receiver, given the videos that it could be sent.
  unfoldable pub allocate_to : ℕ → ℕ → ℕ → List AllocatableVideo → Client → Client
  allocate_to new_target min_target now videos receiver =
      let ideal : ℕ = ideal_send_rate videos receiver.requested_max_send_rate in
      let allocated : List (ℕ × AllocatedVideo) =
        (allocate_send_rate scale new_target min_target ideal receiver.outgoing_queue_drain_rate
          videos).by_sender in
      let steered : Client =
        steer_all allocated videos (record receiver { allocated_height_by_sender_demux_id = [] }) in
      record steered {
        target_send_rate = new_target;
        requested_base_rate = requested_base_rate videos receiver.requested_max_send_rate;
        ideal_send_rate = ideal;
        allocated_send_rate = sum_allocated allocated;
        send_rate_allocated = now;
      }

  -- `expect` on the receiver: the callers pass the id of a client of the call.
  unfoldable pub allocate_video_layers : ℕ → ℕ → ℕ → ℕ → Call → Call
  allocate_video_layers receiver_demux_id new_target min_target now call =
      elim (find_client receiver_demux_id call.clients) [
        | none ↦ call
        | some receiver ↦ record call {
          clients =
              update_client receiver_demux_id
                (allocate_to new_target min_target now (
                  map (allocatable_video call.active_speaker_id receiver)
                    (others receiver_demux_id call.clients)))
                call.clients;
        }
      ]

  -- The loop of `reallocate_target_send_rates`, over the receivers collected before it.
  unfoldable pub reallocate_each : ℕ → List Client → Call → Call
  reallocate_each now [] call = call
  reallocate_each now (r ∷ rs) call =
      reallocate_each now rs
        (allocate_video_layers r.demux_id r.target_send_rate (min_target_send_rate r) now call)

  unfoldable pub reallocate_target_send_rates : ℕ → Call → Call
  reallocate_target_send_rates now call = reallocate_each now call.clients call

abbrev pad : Option ℕ → Client → Client
pad ssrc c = record c { padding_ssrc = ssrc }

unfoldable pub pad_clients : List Client → List Client
pad_clients [] = []
pad_clients (lonely ∷ []) = pad none lonely ∷ []
pad_clients (first ∷ second ∷ rest) =
    pad (some (to_rtx_ssrc video0 second.demux_id)) first
    ∷ pad (some (to_rtx_ssrc video0 first.demux_id)) second
    ∷ map (pad (some (to_rtx_ssrc video0 first.demux_id))) rest

unfoldable pub update_padding_ssrcs : Call → Call
update_padding_ssrcs call = record call { clients = pad_clients call.clients }

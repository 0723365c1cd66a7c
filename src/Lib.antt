-- ===== src/Lib.antt =====
-- The selective forwarding unit of a group calling service: it decides who takes part in a call,
-- which video layers each participant is sent, under which numbers the packets leave, when they
-- leave, and which are asked for or sent again. Paths are from the repository's root.
--
-- Parts, in the order in which a packet meets them:
--
-- * Packets. Rtp/Packet is `Packet` of backend/src/rtp/packet.rs, the parsed values beside the
--   bytes. Counters is `expand_truncated_counter` of common/src/counters.rs, by which Rtp
--   (backend/src/rtp.rs) and Vp8 (backend/src/vp8.rs) read the truncated numbers of packets.
--   Rtp/Nack is `NackSender` of backend/src/rtp/nack.rs, on Collections/KeySorted
--   (common/src/collections/key_sorted_cache.rs): what is asked for again. Rtp/Rtx is `RtxSender` of
--   backend/src/rtp/rtx.rs, on Collections/TwoGeneration (two_generation_cache.rs): what is sent
--   again.
-- * The call, backend/src/call.rs. Call/State has the records `Call` and `Client`. Call/Members is
--   joining, leaving and the admin's decisions: `add_client`, `drop_client`,
--   `approve_pending_client`, `deny_pending_client`, `force_remove_client`, `block_client` and all
--   that they call. Members/View is what these are about, Members/Spec and Members/Removal say what
--   each promises, Members/Run puts them in histories, and Members/Noted is when they note that
--   somebody came or went. Call/Allocation is `allocate_send_rate`, Call/Layers its callers, which
--   steer the forwarders. Call/Hands is `handle_raise_hand`. Call/Ssrc is `LayerId`.
-- * What reaches a call. Call/Dispatch is `handle_rtp` and `handle_key_frame_requests`. Call/Media
--   is `handle_media_rtp` with the forwarding to each participant, on Call/Incoming (the packet and
--   what it tells of its sender); Vp8 is the parser of backend/src/vp8.rs and the writer of its
--   numbers. Call/Requests is `handle_device_to_sfu`, on the messages of Call/Messages
--   (backend/protobuf/group_call.proto); Requests/Spec says what it means for admission.
--   Call/SendRate is `set_target_send_rate`. Call/Tick is `tick` with the messages to clients, on
--   Call/Speaker (`calculate_active_speaker`) and Call/KeyFrames
--   (`send_key_frame_requests_if_its_been_too_long`), with the intervals of Call/Intervals.
--   Call/Life makes histories of all of these; Call/Owned is the invariant on the SSRCs of the
--   video forwarders that it keeps.
-- * Forwarding. Call/Single is `SingleSsrcRtpForwarder`, for audio and data; Call/Simulcast is
--   `Vp8SimulcastRtpForwarder`, which makes one stream of the layers of a video, on Call/Ids
--   (`Vp8RewrittenIds`).
-- * Sending. Pacer is `Pacer` of backend/src/pacer.rs; its operations are in Pacer/Send.
-- * Audio is backend/src/audio.rs, on Collections/Ring (ring_buffer.rs).
-- * The way in. Ice is backend/src/ice.rs: the parser of binding requests, a state machine over the
--   attributes, and in Ice/Packet the packets that are written, by Serialize
--   (common/src/serialize.rs) and Bytes (the readers of common/src/lib.rs). Connection is the ICE
--   part of backend/src/connection.rs: who may redirect the packets to a client. Sfu is the
--   registry of backend/src/sfu.rs: Sfu/Joining is `get_or_create_call_and_add_client` and
--   `remove_client_from_call`, on Call/Members; Sfu/Packets the branch of `handle_packet` for
--   binding requests; Sfu/Removal the expiry in `tick`, on Call/Activity (`activity`);
--   Sfu/Signaling what a call tells about those who wait.
-- * Feedback. Rtcp is backend/src/rtp/rtcp.rs: the compound packets (Rtcp/Compound, with `parse_nack`
--   of backend/src/rtp/nack.rs, whose `write_nack` is Rtcp/Nacks) and the reports (Rtcp/Reports).
--   Rates is `DataRateTracker` of common/src/data_rate.rs.
--
-- A mutable struct is a record that each operation takes and gives back; a `?` that returns is an
-- Option. Fields of 64 bits are natural numbers whose additions are checked or wrap where the source
-- checks or may wrap; instants and durations are nanoseconds. User ids are compared only, so they are
-- numbers. A `HashMap` with number keys is an association list (Prelude/Dict). Loops are recursion on
-- the list or the number of rounds, but for two: the loop over the attributes of a binding request
-- has fuel for each byte of the packet, and the loop over a compound packet takes its fuel as an
-- argument, of which more than the bytes is enough; each turn of the one consumes four bytes at
-- least, of the other eight. `Result` (Prelude/Results) has the source's error types; error messages
-- of reports are values.
--
-- Other crates' code is a parameter: `mac` and `crc` (HMAC-SHA1 and CRC32; what is asked of them,
-- where it is asked, is that an HMAC has 20 bytes), `agree` (the key agreement: SM2 and HKDF) and
-- `receive` (a reliable stream of messages, of the crate mrp: the messages that become ready). The
-- messages themselves are what the generated protobuf code hands over or takes. `persist` is
-- `ApprovedUsers::tick` of backend/src/call/approval_persistence.rs, which stands on tokio's tasks and
-- a request to the frontend: the approved users after it, and whether the task is busy.
--
-- Arithmetic in floating point is a parameter: `scale` (a rate times 0.9, in the allocation), `times`
-- and `over` (a rate times a duration, a size by a rate, in the pacer), `mean` (a geometric mean,
-- in the audio levels), `per` and `smooth` (a size by a duration, a moving average, in the data
-- rates). No law is asked of them.
--
-- Not modelled: the coding of protobuf and what the reliable streams acknowledge and send again (mrp),
-- the statistics of a call, the parsers of RTP headers (byteorder), the encryption of SRTP and SRTCP,
-- the media part of connections, the RTP and RTCP branches of the SFU and what its tick sends,
-- congestion control, the servers, the frontend, metrics, logging and deployment.
pub mod Prelude
pub mod Counters
pub mod Vp8
pub mod Rtp
pub mod Call
pub mod Collections
pub mod Audio
pub mod Bytes
pub mod Connection
pub mod Ice
pub mod Rates
pub mod Rtcp
pub mod Sfu
pub mod Serialize
pub mod Pacer
pub mod Examples

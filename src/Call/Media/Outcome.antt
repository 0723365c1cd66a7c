-- ===== src/Call/Media/Outcome.antt =====
-- What `handle_media_rtp` of backend/src/call.rs answers, and what it leaves of the call.
use signal_calling_service.Prelude.{
  ℕ, ◌≡◌, refl, ap, sym, subst, ◌∙◌, Bool, true, false, ◌==◌, if-elim, Option-cases, inl, inr, ◌⊎◌,
  Option, none, some, List, [], ◌∷◌, All, Result, ok, err, and_then, arith, ==_iff, find,
  Result-cases, Bool-cases,
}
use mathlib.Core.Option.{some-injective}
use signal_calling_service.Vp8.{read_header}
use signal_calling_service.Call.Simulcast.{VideoHeader}
use signal_calling_service.Call.Ssrc.{
  LayerId, audio, video0, video1, video2, rtp_data, layer_from_ssrc, demux_from_ssrc, to_ssrc,
}
use signal_calling_service.Call.State.{IncomingVideoState, Client, Call}
use signal_calling_service.Call.Layers.{find_client, update_client}
use signal_calling_service.Call.Owned.{Owned}
use signal_calling_service.Call.Owned.Kept.{Wired}
use signal_calling_service.Call.Incoming.{
  MediaPacket, Error, unauthorized_rtp_ssrc, invalid_vp8_header, invalid_rtp_layer_id,
  unknown_demux_id, leave, invalid_mrp_header, invalid_client_to_server_protobuf, vp8_payload_type,
  video_header, incoming_video, set_incoming_video, rotate_all, clear_higher, looks_different,
  received, rotate_sender, settle, update_incoming, update_incoming_video,
}
use signal_calling_service.Call.Media.{
  RtpToSend, received_video, hear, forward_each, forward_media, media_received, handle_media_rtp,
}
use signal_calling_service.Call.Media.Recipients.{Delivered, demux_ids, Delivered-forward_each}

-- The video forwarders of a sender, and its demux id, are not changed by what it sends.
abbrev pub Kept : Client → Client → Type 0
Kept c c' =
    (c'.demux_id ≡ c.demux_id)
    × (c'.video_forwarder_by_sender_demux_id ≡ c.video_forwarder_by_sender_demux_id)

-- The participants stay, with the SSRCs of their forwarders.
abbrev pub SameClients : Call → Call → Type 0
SameClients before after = (demux_ids after.clients ≡ demux_ids before.clients) × Wired after

abbrev pub Outcome : ℕ → MediaPacket → Call → Result Error (List RtpToSend) × Call → Type 0
Outcome sender p call (ok sent, after) =
    (demux_from_ssrc p.ssrc ≡ sender)
    × Delivered sender (demux_ids call.clients) sent
    × SameClients call after
Outcome sender p call (err (unknown_demux_id id), after) =
    (id ≡ sender) × (find_client sender call.clients ≡ none) × (after ≡ call)
Outcome sender p call (err (unauthorized_rtp_ssrc a b), after) =
    (a ≡ demux_from_ssrc p.ssrc) × (b ≡ sender) × ((a == b) ≡ false) × (after ≡ call)
Outcome sender p call (err invalid_vp8_header, after) =
    (demux_from_ssrc p.ssrc ≡ sender) × (video_header p ≡ err invalid_vp8_header) × (after ≡ call)
Outcome sender p call (err invalid_rtp_layer_id, after) =
    (demux_from_ssrc p.ssrc ≡ sender) × SameClients call after
Outcome sender p call (err leave, after) = ⊥
Outcome sender p call (err invalid_mrp_header, after) = ⊥
Outcome sender p call (err invalid_client_to_server_protobuf, after) = ⊥

Wired-Outcome :
    (sender : ℕ) (p : MediaPacket) (call : Call) (r : Result Error (List RtpToSend) × Call)
    → Wired call
    → Outcome sender p call r
    → Wired r.1
Wired-Outcome sender p call (ok sent, after) w o = o.2.1
Wired-Outcome sender p call (err (unknown_demux_id id), after) w o = subst Wired (sym o.2) w
Wired-Outcome sender p call (err (unauthorized_rtp_ssrc a b), after) w o = subst Wired (sym o.3) w
Wired-Outcome sender p call (err invalid_vp8_header, after) w o = subst Wired (sym o.2) w
Wired-Outcome sender p call (err invalid_rtp_layer_id, after) w o = o.1.1
Wired-Outcome sender p call (err leave, after) w o = absurd o
Wired-Outcome sender p call (err invalid_mrp_header, after) w o = absurd o
Wired-Outcome sender p call (err invalid_client_to_server_protobuf, after) w o = absurd o

Kept-clear_higher : (l : LayerId) (c : Client) → Kept c (clear_higher l c)
Kept-clear_higher audio c = (refl, refl)
Kept-clear_higher video0 c = (refl, refl)
Kept-clear_higher video1 c = (refl, refl)
Kept-clear_higher video2 c = (refl, refl)
Kept-clear_higher rtp_data c = (refl, refl)

Kept-set_incoming_video :
    (l : LayerId) (v : IncomingVideoState) (c : Client) → Kept c (set_incoming_video l v c)
Kept-set_incoming_video audio v c = (refl, refl)
Kept-set_incoming_video video0 v c = (refl, refl)
Kept-set_incoming_video video1 v c = (refl, refl)
Kept-set_incoming_video video2 v c = (refl, refl)
Kept-set_incoming_video rtp_data v c = (refl, refl)

Kept-settle : (b : Bool) (l : LayerId) (c u : Client) → Kept c u → Kept c (settle b l u)
Kept-settle false l c u k = k
Kept-settle true l c u k =
    let cleared = Kept-clear_higher l (rotate_all u) in (cleared.0 ∙ k.0, cleared.1 ∙ k.1)

Kept-update_incoming :
    (p : MediaPacket) (h : VideoHeader) (now : ℕ) (l : LayerId) (v : IncomingVideoState)
    (c : Client)
    → Kept c (update_incoming p h now l v c)
Kept-update_incoming p h now l v c =
    Kept-settle (looks_different p v (received p h now v) c) l c
      (rotate_sender p (set_incoming_video l (received p h now v) c))
      (Kept-set_incoming_video l (received p h now v) c)

-- A client that is found has the demux id that was looked for, and what holds of all clients.
find_client-found :
    (id : ℕ) (cs : List Client) (c : Client)
    → find_client id cs ≡ some c
    → All Owned cs
    → (c.demux_id ≡ id) × Owned c
find_client-found id [] c e a = absurd (ground arith)
find_client-found id (d ∷ cs) c e a = elim (Bool-cases (d.demux_id == id)) [
  | inl t ↦
      let same : d ≡ c = some-injective d c (rw (t, find) at e) in
      (ap (λ b. b.demux_id) (sym same) ∙ (==_iff d.demux_id id).0 t, subst Owned same a.0)
  | inr f ↦ find_client-found id cs c (rw (f, find) at e) a.1
]

update_client-Same :
    (id : ℕ) (s : Client) (cs : List Client)
    → s.demux_id ≡ id
    → Owned s
    → All Owned cs
    → (demux_ids (update_client id (λ _. s) cs) ≡ demux_ids cs)
      × All Owned (update_client id (λ _. s) cs)
unfolding update_client
update_client-Same id s [] e o a = (refl, tt)
update_client-Same id s (c ∷ cs) e o a =
    let rest = update_client-Same id s cs e o a.1 in
    if-elim (λ (ds : List Client). (demux_ids ds ≡ demux_ids (c ∷ cs)) × All Owned ds)
      (c.demux_id == id)
      (λ t. (ap (λ i. i ∷ demux_ids cs) (e ∙ sym ((==_iff c.demux_id id).0 t)), (o, a.1)))
      λ _. (ap (λ ids. c.demux_id ∷ ids) rest.0, (a.0, rest.1))

-- What is known of a packet that was looked into.
abbrev Received : MediaPacket → Client → Result Error (Option VideoHeader × Client) → Type 0
Received p c (ok (h, s)) = Kept c s
Received p c (err invalid_vp8_header) = video_header p ≡ err invalid_vp8_header
Received p c (err invalid_rtp_layer_id) = Unit
Received p c (err _) = ⊥

error_of : Error → Result Error VideoHeader → Error
error_of d (ok h) = d
error_of d (err e) = e

video_header-err : (p : MediaPacket) (e : Error) → video_header p ≡ err e → e ≡ invalid_vp8_header
unfolding error_of
video_header-err p e q = elim (Option-cases p.descriptor) [
  | inr (d, there) ↦ absurd (ground arith)
  | inl none_there ↦ elim (Result-cases (read_header p.payload)) [
    | inl (h, parsed) ↦ absurd (ground arith)
    | inr (x, failed) ↦
        let known : video_header p ≡ err invalid_vp8_header =
          rw (none_there, failed, video_header) in
        ap (error_of e) (sym q ∙ known)
  ]
]

-- The header and the sender, or what is wrong with the packet.
abbrev Updated : MediaPacket → Client → Result Error (VideoHeader × Client) → Type 0
Updated p c (ok (h, s)) = Kept c s
Updated p c (err e) =
    (e ≡ invalid_rtp_layer_id)
    ⊎ ((e ≡ invalid_vp8_header) × (video_header p ≡ err invalid_vp8_header))

Updated-update_incoming_video :
    (p : MediaPacket) (now : ℕ) (c : Client) → Updated p c (update_incoming_video p now c)
unfolding update_incoming_video
Updated-update_incoming_video p now c = elim (Result-cases (video_header p)) [
  | inr (x, e) ↦
      let bad = video_header-err p x e in rw (e, update_incoming_video) (inr (bad, e ∙ ap err bad))
  | inl (h, e) ↦ elim (Option-cases (layer_from_ssrc p.ssrc)) [
    | inl no_layer ↦ rw (e, no_layer, update_incoming_video) (inl refl)
    | inr (l, layer) ↦ elim (Option-cases (incoming_video l c)) [
      | inl not_video ↦ rw (e, layer, not_video, update_incoming_video) (inl refl)
      | inr (v, video) ↦
          rw (e, layer, video, update_incoming_video) (Kept-update_incoming p h now l v c)
    ]
  ]
]

Received-Updated :
    (p : MediaPacket) (c : Client) (r : Result Error (VideoHeader × Client))
    → Updated p c r
    → Received p c (and_then r λ b. ok (some b.0, b.1))
Received-Updated p c (ok (h, s)) u = u
Received-Updated p c (err e) (inl layer) = subst (λ x. Received p c (err x)) (sym layer) tt
Received-Updated p c (err e) (inr (bad, header)) =
    subst (λ x. Received p c (err x)) (sym bad) header

module _ (mean : ℕ → ℕ → ℕ) where
  Kept-hear : (level : Option ℕ) (c : Client) → Kept c (hear mean level c)
  Kept-hear none c = (refl, refl)
  Kept-hear (some level) c = (refl, refl)

  -- The rest of the handler, on a call whose clients are those of an earlier one.
  Outcome-forward_media :
      (sender : ℕ) (p : MediaPacket) (h : Option VideoHeader) (before call : Call)
      → demux_from_ssrc p.ssrc ≡ sender
      → SameClients before call
      → Outcome sender p before (forward_media mean sender p h call)
  Outcome-forward_media sender p h before call e same =
      elim (Option-cases (layer_from_ssrc p.ssrc)) [
        | inl missing ↦ rw (missing, forward_media) (e, same)
        | inr (layer, found) ↦
            let sent = Delivered-forward_each sender layer p h call.clients e same.1 in
            rw (found, forward_media)
              (
                e,
                subst (λ ids. Delivered sender ids (forward_each sender layer p h call.clients).0)
                    same.0 sent.0,
                (sent.2 ∙ same.0, sent.1),
              )
      ]

  Outcome-media_received :
      (sender : ℕ) (p : MediaPacket) (c : Client) (r : Result Error (Option VideoHeader × Client))
      (call : Call)
      → demux_from_ssrc p.ssrc ≡ sender
      → Wired call
      → c.demux_id ≡ sender
      → Owned c
      → Received p c r
      → Outcome sender p call (media_received mean sender p r call)
  Outcome-media_received sender p c (ok (h, s)) call e w d o k =
      let heard = Kept-hear p.audio_level s in
      let owned : Owned (hear mean p.audio_level s) =
        subst (All λ b. b.1.outgoing_ssrc ≡ to_ssrc video0 b.0) (sym (heard.1 ∙ k.1)) o in
      Outcome-forward_media sender p h call _ e (
        update_client-Same sender (hear mean p.audio_level s) call.clients (heard.0 ∙ k.0 ∙ d) owned
          w)
  Outcome-media_received sender p c (err invalid_vp8_header) call e w d o k = (e, k, refl)
  Outcome-media_received sender p c (err invalid_rtp_layer_id) call e w d o k = (e, (refl, w))
  Outcome-media_received sender p c (err (unknown_demux_id i)) call e w d o k = absurd k
  Outcome-media_received sender p c (err (unauthorized_rtp_ssrc i j)) call e w d o k = absurd k
  Outcome-media_received sender p c (err leave) call e w d o k = absurd k
  Outcome-media_received sender p c (err invalid_mrp_header) call e w d o k = absurd k
  Outcome-media_received sender p c (err invalid_client_to_server_protobuf) call e w d o k =
      absurd k

  Received-received_video :
      (p : MediaPacket) (now : ℕ) (c : Client) → Received p c (received_video mean p now c)
  Received-received_video p now c =
      if-elim (Received p c) (p.payload_type == vp8_payload_type)
        (λ _.
          Received-Updated p c (update_incoming_video p now c)
            (Updated-update_incoming_video p now c))
        λ _. (refl, refl)

  -- A media packet of a client is answered thus. From one who is not a participant, or under an
  -- SSRC that is not the sender's, it is refused and changes nothing, and likewise when its video
  -- header is malformed. Otherwise the packets that are sent go to participants other than the
  -- sender only, at most one to each, and under SSRCs of the sender; and the participants stay as
  -- they are, also when the packet is of no layer. (The video forwarders send under SSRCs of the
  -- senders they are kept for, and go on doing so.)
  pub handle_media_rtp-Outcome :
      (sender : ℕ) (p : MediaPacket) (now : ℕ) (call : Call)
      → Wired call
      → Outcome sender p call (handle_media_rtp mean sender p now call)
  unfolding handle_media_rtp
  handle_media_rtp-Outcome sender p now call w =
      elim (Option-cases (find_client sender call.clients)) [
        | inl missing ↦ rw (missing, handle_media_rtp) (refl, missing, refl)
        | inr (c, found) ↦
            let known = find_client-found sender call.clients c found w in
            rw (found, handle_media_rtp)
              (if-elim (Outcome sender p call) (demux_from_ssrc p.ssrc == sender)
                (λ t.
                  Outcome-media_received sender p c (received_video mean p now c) call
                    ((==_iff (demux_from_ssrc p.ssrc) sender).0 t) w known.0 known.1
                    (Received-received_video p now c))
                λ f. (refl, refl, f, refl))
      ]

  pub handle_media_rtp-Wired :
      (sender : ℕ) (p : MediaPacket) (now : ℕ) (call : Call)
      → Wired call
      → Wired (handle_media_rtp mean sender p now call).1
  handle_media_rtp-Wired sender p now call w =
      Wired-Outcome sender p call (handle_media_rtp mean sender p now call) w
        (handle_media_rtp-Outcome sender p now call w)

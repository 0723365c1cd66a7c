-- ===== src/Call/Media/Recipients.antt =====
-- Who is sent a media packet in backend/src/call.rs, and under which SSRC.
use signal_calling_service.Prelude.{
  ℕ, ◌≡◌, refl, ap, subst, ◌∙◌, false, ◌==◌, if-elim, Option-cases, inl, inr, Option, none, some,
  opt_eq, List, [], ◌∷◌, All, map, ap₂, arith,
}
use signal_calling_service.Prelude.Dict.{get, All-insert}
use signal_calling_service.Call.Simulcast.{SimulcastForwarder, VideoHeader, Sent, forward_vp8_rtp}
use signal_calling_service.Call.Ssrc.{
  LayerId, audio, video0, video1, video2, rtp_data, to_ssrc, demux_from_ssrc,
}
use signal_calling_service.Call.State.{Client}
use signal_calling_service.Call.Owned.{Owned, UnderSent, Under-forward_vp8_rtp, All-get}
use signal_calling_service.Call.Incoming.{MediaPacket}
use signal_calling_service.Call.Media.{
  RtpToSend, rewrite_video, set_picture_ids, set_frame_number, forward_by, forward_video_rtp,
  forward_single, forward_to, forward_each, push_to, rewritten, video_sent,
}

-- The packets that one packet of a sender becomes, for receivers in order: each goes to a receiver
-- that is not the sender, to none twice, and under an SSRC of the sender.
pub data Delivered (sender : ℕ) : List ℕ → List RtpToSend → Type 0 where
  nobody : Delivered sender [] []
  skipped :
      (id : ℕ) {ids : List ℕ} {sent : List RtpToSend}
      → Delivered sender ids sent
      → Delivered sender (id ∷ ids) sent
  delivered :
      (id : ℕ) (p : MediaPacket) {ids : List ℕ} {sent : List RtpToSend}
      → (id == sender) ≡ false
      → demux_from_ssrc p.ssrc ≡ sender
      → Delivered sender ids sent
      → Delivered sender (id ∷ ids) ((id, p) ∷ sent)

abbrev pub demux_ids : List Client → List ℕ
demux_ids = map (λ c. c.demux_id)

abbrev pub OwnedSent : ℕ → Option MediaPacket → Type 0
OwnedSent sender none = Unit
OwnedSent sender (some p) = demux_from_ssrc p.ssrc ≡ sender

ssrc-set_picture_ids : (a b : Option ℕ) (p : MediaPacket) → (set_picture_ids a b p).ssrc ≡ p.ssrc
ssrc-set_picture_ids none b p = refl
ssrc-set_picture_ids (some a) none p = refl
ssrc-set_picture_ids (some a) (some b) p = refl

ssrc-set_frame_number : (n : Option ℕ) (p : MediaPacket) → (set_frame_number n p).ssrc ≡ p.ssrc
ssrc-set_frame_number none p = refl
ssrc-set_frame_number (some n) p = ground arith

ssrc-rewrite_video : (p : MediaPacket) (s : Sent) → (rewrite_video p s).ssrc ≡ s.0
ssrc-rewrite_video p (ssrc, ids) =
    ssrc-set_picture_ids ids.picture_id ids.tl0_pic_idx _ ∙ ssrc-set_frame_number ids.frame_number _

demux-base :
    (ssrc : ℕ) → demux_from_ssrc (to_ssrc video0 (demux_from_ssrc ssrc)) ≡ demux_from_ssrc ssrc
unfolding demux_from_ssrc to_ssrc
demux-base ssrc = omega arith

-- What a forwarding function of a receiver leaves.
abbrev pub Leaves : MediaPacket → Option MediaPacket × Client → Type 0
Leaves p r = OwnedSent (demux_from_ssrc p.ssrc) r.0 × Owned r.1

OwnedSent-video_sent :
    (p : MediaPacket) (o : Option Sent)
    → UnderSent (to_ssrc video0 (demux_from_ssrc p.ssrc)) o
    → OwnedSent (demux_from_ssrc p.ssrc) (video_sent p o)
OwnedSent-video_sent p none u = tt
OwnedSent-video_sent p (some sent) u =
    ap demux_from_ssrc (ssrc-rewrite_video p sent ∙ u) ∙ demux-base p.ssrc

abbrev FoundOwned : ℕ → Option SimulcastForwarder → Type 0
FoundOwned id none = Unit
FoundOwned id (some f) = f.outgoing_ssrc ≡ to_ssrc video0 id

get-FoundOwned :
    (id : ℕ) (c : Client) → Owned c → FoundOwned id (get id c.video_forwarder_by_sender_demux_id)
get-FoundOwned id c o = elim (Option-cases (get id c.video_forwarder_by_sender_demux_id)) [
  | inl e ↦ rw e tt
  | inr (f, e) ↦ rw e (
      All-get (λ b. b.1.outgoing_ssrc ≡ to_ssrc video0 b.0) id f
        c.video_forwarder_by_sender_demux_id o e)
]

Leaves-forward_by :
    (p : MediaPacket) (h : VideoHeader) (found : Option SimulcastForwarder) (c : Client)
    → FoundOwned (demux_from_ssrc p.ssrc) found
    → Owned c
    → Leaves p (forward_by p h found c)
Leaves-forward_by p h none c e o = (tt, o)
Leaves-forward_by p h (some f) c e o =
    let id = demux_from_ssrc p.ssrc in
    let r = forward_vp8_rtp f p.rtp h in
    let under = Under-forward_vp8_rtp f p.rtp h in
    (
      OwnedSent-video_sent p r.0 (subst (λ n. UnderSent n r.0) e under.1),
      All-insert (λ b. b.1.outgoing_ssrc ≡ to_ssrc video0 b.0) id r.1
          c.video_forwarder_by_sender_demux_id (under.0 ∙ e) o,
    )

Leaves-forward_video_rtp :
    (p : MediaPacket) (h : Option VideoHeader) (c : Client)
    → Owned c
    → Leaves p (forward_video_rtp p h c)
unfolding forward_video_rtp
Leaves-forward_video_rtp p none c o = (tt, o)
Leaves-forward_video_rtp p (some h) c o =
    Leaves-forward_by p h (get (demux_from_ssrc p.ssrc) c.video_forwarder_by_sender_demux_id) c
      (get-FoundOwned (demux_from_ssrc p.ssrc) c o) o

OwnedSent-rewritten :
    (p : MediaPacket) (n : Option ℕ) → OwnedSent (demux_from_ssrc p.ssrc) (rewritten p n)
OwnedSent-rewritten p none = tt
OwnedSent-rewritten p (some n) = refl

pub Leaves-forward_to :
    (layer : LayerId) (p : MediaPacket) (h : Option VideoHeader) (c : Client)
    → Owned c
    → Leaves p (forward_to layer p h c)
unfolding forward_to forward_single
Leaves-forward_to audio p h c o =
    if-elim (Leaves p) (opt_eq p.audio_level (some 0)) (λ _. (tt, o))
      λ _. (OwnedSent-rewritten p _, o)
Leaves-forward_to rtp_data p h c o = (OwnedSent-rewritten p _, o)
Leaves-forward_to video0 p h c o = Leaves-forward_video_rtp p h c o
Leaves-forward_to video1 p h c o = Leaves-forward_video_rtp p h c o
Leaves-forward_to video2 p h c o = Leaves-forward_video_rtp p h c o

Delivered-push_to :
    (sender id : ℕ) (o : Option MediaPacket) (ids : List ℕ) (sent : List RtpToSend)
    → (id == sender) ≡ false
    → OwnedSent sender o
    → Delivered sender ids sent
    → Delivered sender (id ∷ ids) (push_to id o sent)
Delivered-push_to sender id none ids sent other h d = skipped id d
Delivered-push_to sender id (some p) ids sent other h d = delivered id p other h d

demux_id-forward_by :
    (p : MediaPacket) (h : VideoHeader) (found : Option SimulcastForwarder) (c : Client)
    → (forward_by p h found c).1.demux_id ≡ c.demux_id
demux_id-forward_by p h none c = refl
demux_id-forward_by p h (some f) c = refl

demux_id-forward_video_rtp :
    (p : MediaPacket) (h : Option VideoHeader) (c : Client)
    → (forward_video_rtp p h c).1.demux_id ≡ c.demux_id
unfolding forward_video_rtp
demux_id-forward_video_rtp p none c = refl
demux_id-forward_video_rtp p (some h) c = demux_id-forward_by p h _ c

demux_id-forward_to :
    (layer : LayerId) (p : MediaPacket) (h : Option VideoHeader) (c : Client)
    → (forward_to layer p h c).1.demux_id ≡ c.demux_id
unfolding forward_to
demux_id-forward_to audio p h c =
    if-elim (λ (r : Option MediaPacket × Client). r.1.demux_id ≡ c.demux_id)
      (opt_eq p.audio_level (some 0)) (λ _. refl) λ _. refl
demux_id-forward_to rtp_data p h c = refl
demux_id-forward_to video0 p h c = demux_id-forward_video_rtp p h c
demux_id-forward_to video1 p h c = demux_id-forward_video_rtp p h c
demux_id-forward_to video2 p h c = demux_id-forward_video_rtp p h c

-- The loop over the receivers sends to them only, and keeps the SSRCs of the forwarders.
pub Delivered-forward_each :
    (sender : ℕ) (layer : LayerId) (p : MediaPacket) (h : Option VideoHeader) (cs : List Client)
    → demux_from_ssrc p.ssrc ≡ sender
    → All Owned cs
    → let r = forward_each sender layer p h cs in
      Delivered sender (demux_ids cs) r.0 × All Owned r.1 × (demux_ids r.1 ≡ demux_ids cs)
unfolding forward_each
Delivered-forward_each sender layer p h [] e a = (nobody, tt, refl)
Delivered-forward_each sender layer p h (c ∷ cs) e a =
    let rest = Delivered-forward_each sender layer p h cs e a.1 in
    let leaves = Leaves-forward_to layer p h c a.0 in
    if-elim
      (λ (r : List RtpToSend × List Client).
        Delivered sender (demux_ids (c ∷ cs)) r.0
        × All Owned r.1
        × (demux_ids r.1 ≡ demux_ids (c ∷ cs)))
      (c.demux_id == sender)
      (λ _. (skipped c.demux_id rest.0, (a.0, rest.1), ap (λ ids. c.demux_id ∷ ids) rest.2))
      λ other. (
        Delivered-push_to sender c.demux_id _ (demux_ids cs) _ other
            (subst (λ n. OwnedSent n (forward_to layer p h c).0) e leaves.0) rest.0,
        (leaves.1, rest.1),
        ap₂ ◌∷◌ (demux_id-forward_to layer p h c) rest.2,
      )

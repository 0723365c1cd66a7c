-- ===== src/Pacer/Live.antt =====
-- What `pop_media` finds in the queues.
use signal_calling_service.Prelude.{
  ℕ, ◌-◌, true, false, ◌&&◌, Option, none, some, List, [], ◌∷◌, ◌++◌, ◌≡◌, ◌⊎◌, refl, ap, ◌∙◌,
  arith, inl, inr, Bool-cases, if◌then◌else◌,
}
use signal_calling_service.Rtp.Packet.{Packet, size, is_past_deadline}
use signal_calling_service.Pacer.{Pacer, is_empty, pop_media, pop_queue, or_video}

-- The first packet that is not past its deadline, and what follows it.
abbrev pub first_live : ℕ → List Packet → Option (Packet × List Packet)
first_live now [] = none
first_live now (p ∷ ps) = if is_past_deadline now p then first_live now ps else some (p, ps)

-- The retransmissions, then the video.
abbrev pub all_queued : Pacer → List Packet
all_queued s = s.rtx_queue ++ s.video_queue

pop_queue-first_live :
    (now n : ℕ) (ps : List Packet)
    → (((pop_queue ps n now).found ≡ none)
        × ((pop_queue ps n now).queue ≡ [])
        × (first_live now ps ≡ none))
      ⊎ ((p : Packet) × ((pop_queue ps n now).found ≡ some p)
          × (first_live now ps ≡ some (p, (pop_queue ps n now).queue)))
unfolding pop_queue
pop_queue-first_live now n [] = inl (refl, refl, refl)
pop_queue-first_live now n (p ∷ ps) = elim (Bool-cases (is_past_deadline now p)) [
  | inl late ↦ rw late (pop_queue-first_live now (n - size p) ps)
  | inr live ↦ rw live (inr (p, refl, refl))
]

abbrev extend : List Packet → Option (Packet × List Packet) → Option (Packet × List Packet)
extend qs none = none
extend qs (some (p, rest)) = some (p, rest ++ qs)

first_live-append_some :
    (now : ℕ) (p : Packet) (ps qs rest : List Packet)
    → first_live now ps ≡ some (p, rest)
    → first_live now (ps ++ qs) ≡ some (p, rest ++ qs)
first_live-append_some now p [] qs rest h = ground arith
first_live-append_some now p (q ∷ ps) qs rest h = elim (Bool-cases (is_past_deadline now q)) [
  | inl late ↦ rw late (first_live-append_some now p ps qs rest (rw late at h))
  | inr live ↦ rw live (ap (extend qs) (rw live at h))
]

first_live-append_none :
    (now : ℕ) (ps qs : List Packet)
    → first_live now ps ≡ none
    → first_live now (ps ++ qs) ≡ first_live now qs
first_live-append_none now [] qs h = refl
first_live-append_none now (q ∷ ps) qs h = elim (Bool-cases (is_past_deadline now q)) [
  | inl late ↦ rw late (first_live-append_none now ps qs (rw late at h))
  | inr live ↦ ground arith
]

-- What `pop_media` leaves, if nothing or something is found.
unfoldable pub Pops : ℕ → List Packet → Option Packet × Pacer → Type 0
Pops now ps r =
    ((r.0 ≡ none) × (all_queued r.1 ≡ []) × (first_live now ps ≡ none))
    ⊎ ((p : Packet) × (r.0 ≡ some p) × (first_live now ps ≡ some (p, all_queued r.1)))

or_video-Pops :
    (now n : ℕ) (s : Pacer)
    → let r = pop_queue s.rtx_queue n now in
      Pops now
        (all_queued s)
        (or_video r.found now (record s { rtx_queue = r.queue; queued_size = r.left_size }))
unfolding or_video Pops
or_video-Pops now n s = elim (pop_queue-first_live now n s.rtx_queue) [
  | inr (p, found, live) ↦
      rw found (inr (p, refl, first_live-append_some now p s.rtx_queue s.video_queue _ live))
  | inl (nothing, empty, expired) ↦
      elim (pop_queue-first_live now (pop_queue s.rtx_queue n now).left_size s.video_queue) [
        | inr (p, found, live) ↦
            rw (nothing, empty)
              (inr (p, found, first_live-append_none now s.rtx_queue s.video_queue expired ∙ live))
        | inl (none_there, no_video, late) ↦
            rw (nothing, empty)
              (inl (
                none_there,
                no_video,
                first_live-append_none now s.rtx_queue s.video_queue expired ∙ late,
              ))
      ]
]

pub pop_media-Pops : (now : ℕ) (s : Pacer) → Pops now (all_queued s) (pop_media s now)
pop_media-Pops now s = or_video-Pops now s.queued_size s

pub first_live-not_empty :
    (now : ℕ) (vs rs rest : List Packet) (p : Packet)
    → first_live now (rs ++ vs) ≡ some (p, rest)
    → (is_empty vs && is_empty rs) ≡ false
first_live-not_empty now [] [] rest p h = ground arith
first_live-not_empty now [] (r ∷ rs) rest p h = refl
first_live-not_empty now (v ∷ vs) rs rest p h = refl

pub none_some {ℓ κ} : {A : Type ℓ} {P : Type κ} {a : A} → none ≡ some a → P
none_some e = ground arith

queued_or : Packet → List Packet → Option (Packet × List Packet) → Packet × List Packet
queued_or a b none = (a, b)
queued_or a b (some r) = r

pub some_pair :
    (a c : Packet) (b d : List Packet)
    → ◌≡◌ {A = Option (Packet × List Packet)} (some (a, b)) (some (c, d))
    → (a ≡ c) × (b ≡ d)
unfolding queued_or
some_pair a c b d e = (ap (λ o. (queued_or a b o).0) e, ap (λ o. (queued_or a b o).1) e)

pub or_video-config :
    (o : Option Packet) (now : ℕ) (s : Pacer) → (or_video o now s).1.config ≡ s.config
unfolding or_video
or_video-config none now s = refl
or_video-config (some media) now s = refl

pub append_empty : (rs vs : List Packet) → rs ++ vs ≡ [] → (is_empty vs && is_empty rs) ≡ true
append_empty [] [] h = refl
append_empty [] (v ∷ vs) h = ground arith
append_empty (r ∷ rs) vs h = ground arith

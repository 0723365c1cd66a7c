-- ===== src/Call/Speaker.antt =====
-- `calculate_active_speaker` of backend/src/call.rs.
use mathlib.Core.Option.{some-injective}
use signal_calling_service.Prelude.{
  ℕ, ◌≡◌, refl, ap, sym, subst, true, not, ◌&&◌, ◌==◌, ==_iff, opt_eq, Option, none, some,
  unwrap_or, if◌then◌else◌, if-elim, Option-cases, Bool-cases, inl, inr, List, [], ◌∷◌, ◌>>=◌, Any,
  All, All-imp, find, arith,
}
use signal_calling_service.Audio.{more_active_than_most_active}
use signal_calling_service.Call.State.{Client, Call}
use signal_calling_service.Call.Layers.{find_client, update_client}

abbrev pub challenge : Client → Client → Client
challenge contender most_active =
    if not (contender.demux_id == most_active.demux_id)
      && more_active_than_most_active contender.incoming_audio_levels
          most_active.incoming_audio_levels
    then contender
    else most_active

-- The loop over the contenders.
unfoldable pub most_active_of : Client → List Client → Client
most_active_of most_active [] = most_active
most_active_of most_active (contender ∷ rest) =
    most_active_of (challenge contender most_active) rest

-- The client that speaks, as long as it is there, is the one to beat.
abbrev pub speaking : Client → Call → Client
speaking first call = unwrap_or (call.active_speaker_id >>= λ id. find_client id call.clients) first

abbrev pub become_speaker : ℕ → ℕ → Call → Option ℕ × Call
become_speaker now id call =
    if not (opt_eq call.active_speaker_id (some id))
    then (
      some id,
      record call {
        clients =
            update_client id (λ c. record c { became_active_speaker = some now }) call.clients;
        active_speaker_id = some id;
      },
    )
    else (none, call)

abbrev pub speaker_among : List Client → ℕ → Call → Option ℕ × Call
speaker_among [] now call = (none, call)
speaker_among (first ∷ rest) now call =
    become_speaker now (most_active_of (speaking first call) call.clients).demux_id call

unfoldable pub calculate_active_speaker : ℕ → Call → Option ℕ × Call
calculate_active_speaker now call = speaker_among call.clients now call

abbrev pub Participant : ℕ → List Client → Type 0
Participant id cs = Any (λ c. c.demux_id ≡ id) cs

abbrev Among : List Client → Client → Type 0
Among cs c = Participant c.demux_id cs

-- Whoever wins is one of those that stood for it.
most_active_of-Among :
    (all : List Client) (c : Client) (cs : List Client)
    → Among all c
    → All (Among all) cs
    → Among all (most_active_of c cs)
unfolding most_active_of
most_active_of-Among all c [] h a = h
most_active_of-Among all c (d ∷ cs) h a =
    most_active_of-Among all (challenge d c) cs
      (if-elim (Among all)
        (not (d.demux_id == c.demux_id)
          && more_active_than_most_active d.incoming_audio_levels c.incoming_audio_levels)
        (λ _. a.0) λ _. h)
      a.1

find_client-Among :
    (id : ℕ) (cs : List Client) (c : Client) → find_client id cs ≡ some c → Among cs c
find_client-Among id [] c e = absurd (ground arith)
find_client-Among id (d ∷ cs) c e = elim (Bool-cases (d.demux_id == id)) [
  | inl t ↦ inl (ap (λ b. b.demux_id) (some-injective d c (rw (t, find) at e)))
  | inr f ↦ inr (find_client-Among id cs c (rw (f, find) at e))
]

Among-All : (cs : List Client) → All (Among cs) cs
Among-All [] = tt
Among-All (c ∷ cs) = (inl refl, All-imp (λ d m. inr m) cs (Among-All cs))

Participant-update_client :
    (id w now : ℕ) (cs : List Client)
    → Participant w cs
    → Participant w (update_client id (λ c. record c { became_active_speaker = some now }) cs)
unfolding update_client
Participant-update_client id w now [] m = absurd m
Participant-update_client id w now (c ∷ cs) (inl e) =
    if-elim (Participant w) (c.demux_id == id) (λ _. inl e) λ _. inl e
Participant-update_client id w now (c ∷ cs) (inr m) =
    if-elim (Participant w) (c.demux_id == id) (λ _. inr m)
      λ _. inr (Participant-update_client id w now cs m)

opt_eq-some : (o : Option ℕ) (id : ℕ) → opt_eq o (some id) ≡ true → o ≡ some id
opt_eq-some none id h = absurd (ground arith)
opt_eq-some (some a) id h = ap some ((==_iff a id).0 h)

-- What the announcement of a participant leaves.
abbrev pub Spoken : Call → Option ℕ × Call → Type 0
Spoken call r =
    (id : ℕ) × (r.1.active_speaker_id ≡ some id)
    × Participant id r.1.clients
    × (r.0 ≡ (if opt_eq call.active_speaker_id (some id) then none else some id))

become_speaker-Spoken :
    (now id : ℕ) (call : Call)
    → Participant id call.clients
    → Spoken call (become_speaker now id call)
become_speaker-Spoken now id call m = elim (Bool-cases (opt_eq call.active_speaker_id (some id))) [
  | inl same ↦ rw same (id, opt_eq-some call.active_speaker_id id same, m, rw same refl)
  | inr other ↦
      rw other (id, refl, Participant-update_client id id now call.clients m, rw other refl)
]

speaking-Among :
    (first : Client) (call : Call)
    → Among call.clients first
    → Among call.clients (speaking first call)
speaking-Among first call m = elim (Option-cases call.active_speaker_id) [
  | inl nobody ↦ rw nobody m
  | inr (id, someone) ↦ elim (Option-cases (find_client id call.clients)) [
    | inl gone ↦ rw (someone, gone) m
    | inr (c, there) ↦ rw (someone, there) (find_client-Among id call.clients c there)
  ]
]

-- Once it was calculated, the active speaker of a call that has participants is one of them, and it
-- is announced if it changed and not otherwise.
pub calculate_active_speaker-Spoken :
    (now : ℕ) (call : Call) (first : Client) (rest : List Client)
    → call.clients ≡ first ∷ rest
    → Spoken call (calculate_active_speaker now call)
unfolding calculate_active_speaker
calculate_active_speaker-Spoken now call first rest e =
    let there : Among call.clients first = subst (λ cs. Among cs first) (sym e) (inl refl) in
    subst (λ cs. Spoken call (speaker_among cs now call)) (sym e)
      (become_speaker-Spoken now (most_active_of (speaking first call) call.clients).demux_id call (
        most_active_of-Among call.clients (speaking first call) call.clients
          (speaking-Among first call there) (Among-All call.clients)))

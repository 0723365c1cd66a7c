-- ===== src/Call/Members/Identities.antt =====
-- The lists of clients and of their identities go together under the list operations of a call.
use signal_calling_service.Prelude.{
  ℕ, Bool, none, some, List, [], ◌∷◌, ◌≡◌, refl, ap, ◌==◌, inl, inr, Bool-cases, keep, find,
}
use signal_calling_service.Call.State.{NonParticipantClient, Client, identities}
use signal_calling_service.Call.Members.{swap_remove, has_demux, init_last, fill_gap}

pub identities-keep :
    (p : NonParticipantClient → Bool) (cs : List Client)
    → identities (keep (λ c. p c.info) cs) ≡ keep p (identities cs)
identities-keep p [] = refl
identities-keep p (c ∷ cs) = elim (Bool-cases (p c.info)) [
  | inl t ↦ rw (t, keep) (ap (λ is. c.info ∷ is) (identities-keep p cs))
  | inr f ↦ rw (f, keep) (identities-keep p cs)
]

pub find-identities :
    (id : ℕ) (cs : List Client)
    → find (has_demux id) (identities cs)
      ≡ elim (find (λ c. c.demux_id == id) cs) [ none ↦ none | some c ↦ some c.info ]
find-identities id [] = refl
find-identities id (c ∷ cs) = elim (Bool-cases (c.demux_id == id)) [
  | inl t ↦ rw (t, find)
  | inr f ↦ rw (f, find) (find-identities id cs)
]

identities-init_last :
    (c : Client) (cs : List Client)
    → init_last c.info (identities cs) ≡ (identities (init_last c cs).0, (init_last c cs).1.info)
identities-init_last c [] = refl
identities-init_last c (d ∷ cs) = rw (identities-init_last d cs)

identities-fill_gap : (cs : List Client) → identities (fill_gap cs) ≡ fill_gap (identities cs)
identities-fill_gap [] = refl
identities-fill_gap (c ∷ cs) = rw (identities-init_last c cs)

pub identities-swap_remove :
    (p : NonParticipantClient → Bool) (cs : List Client)
    → identities (swap_remove (λ c. p c.info) cs) ≡ swap_remove p (identities cs)
identities-swap_remove p [] = refl
identities-swap_remove p (c ∷ cs) = elim (Bool-cases (p c.info)) [
  | inl t ↦ rw t (identities-fill_gap cs)
  | inr f ↦ rw f (ap (λ is. c.info ∷ is) (identities-swap_remove p cs))
]

-- ===== src/Call/Members/Admission.antt =====
-- Nobody takes part without the right to.
use signal_calling_service.Prelude.{
  ℕ, Bool, true, false, List, [], ◌∷◌, ◌≡◌, ◌⊎◌, inl, inr, arith, All, Bool-cases, ◌==◌,
}
use signal_calling_service.Call.State.{
  NonParticipantClient, ApprovedUsers, contains, set_remove, approve, revoke,
}
use signal_calling_service.Call.Members.{swap_remove, init_last, fill_gap, has_user}
use signal_calling_service.Call.Members.View.{View}

-- An admin, or a client of an approved user.
abbrev pub MayJoin : ApprovedUsers → NonParticipantClient → Type 0
MayJoin a c = (c.is_admin ≡ true) ⊎ (contains c.user_id a.users ≡ true)

-- Where newcomers need approval, every participant has the right to join.
abbrev pub OnlyAdmitted : View → Type 0
OnlyAdmitted v = v.require_approval ≡ true → All (MayJoin v.approved) v.members

contains-approve :
    (u w : ℕ) (a : ApprovedUsers)
    → contains u a.users ≡ true
    → contains u (approve w a).users ≡ true
unfolding approve
contains-approve u w a h = ground arith

pub contains-approve_self : (u : ℕ) (a : ApprovedUsers) → contains u (approve u a).users ≡ true
unfolding approve
contains-approve_self u a = ground arith

contains-set_remove :
    (u w : ℕ) (us : List ℕ)
    → (u == w) ≡ false
    → contains u us ≡ true
    → contains u (set_remove w us) ≡ true
contains-set_remove u w [] ne h = h
contains-set_remove u w (x ∷ us) ne h = ground (arith, contains-set_remove u w us)

contains-revoke :
    (u w : ℕ) (a : ApprovedUsers)
    → (u == w) ≡ false
    → contains u a.users ≡ true
    → contains u (revoke w a).users ≡ true
unfolding revoke
contains-revoke u w a ne h = ground (arith, contains-set_remove u w a.users)

pub MayJoin-approve :
    (w : ℕ) (a : ApprovedUsers) (c : NonParticipantClient) → MayJoin a c → MayJoin (approve w a) c
MayJoin-approve w a c (inl admin) = inl admin
MayJoin-approve w a c (inr ok) = inr (contains-approve c.user_id w a ok)

pub MayJoin-revoke :
    (w : ℕ) (a : ApprovedUsers) (c : NonParticipantClient)
    → has_user w c ≡ false
    → MayJoin a c
    → MayJoin (revoke w a) c
MayJoin-revoke w a c ne (inl admin) = inl admin
MayJoin-revoke w a c ne (inr ok) = inr (contains-revoke c.user_id w a ne ok)

module _ (P : NonParticipantClient → Type 0) where
  All-init_last :
      (c : NonParticipantClient) (cs : List NonParticipantClient)
      → P c
      → All P cs
      → All P (init_last c cs).0 × P (init_last c cs).1
  All-init_last c [] h hs = (tt, h)
  All-init_last c (d ∷ cs) h hs = let rest = All-init_last d cs hs.0 hs.1 in ((h, rest.0), rest.1)

  All-fill_gap : (cs : List NonParticipantClient) → All P cs → All P (fill_gap cs)
  All-fill_gap [] hs = tt
  All-fill_gap (c ∷ cs) hs = let rest = All-init_last c cs hs.0 hs.1 in (rest.1, rest.0)

  pub All-swap_remove :
      (p : NonParticipantClient → Bool) (cs : List NonParticipantClient)
      → All P cs
      → All P (swap_remove p cs)
  All-swap_remove p [] hs = tt
  All-swap_remove p (c ∷ cs) hs = elim (Bool-cases (p c)) [
    | inl t ↦ rw t (All-fill_gap cs hs.1)
    | inr f ↦ rw f (hs.0, All-swap_remove p cs hs.1)
  ]

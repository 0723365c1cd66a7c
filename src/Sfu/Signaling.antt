-- ===== src/Sfu/Signaling.antt =====
-- What `get_call_signaling_info` of backend/src/sfu.rs tells about the users who wait for approval.
use signal_calling_service.Prelude.{
  ℕ, Bool, true, false, ◌≡◌, refl, sym, subst, ap, ◌&&◌, ◌==◌, ==_refl, Bool-cases, inl, inr, any,
  Option, none, some, List, [], ◌∷◌, Any, map, if◌then◌else◌, ◌>>=◌, ◌⊎◌, arith,
}
use signal_calling_service.Prelude.Dict
use signal_calling_service.Call.State.{Client, Call, NonParticipantClient}
use signal_calling_service.Sfu.{
  Sfu, CallSignalingInfo, get_call_signaling_info, includes_user_ids, signaling_info,
}

-- The user who asks takes part in the call as an admin.
abbrev pub AsksAsAdmin : Option ℕ → Call → Type 0
AsksAsAdmin none call = ⊥
AsksAsAdmin (some u) call = Any (λ c. (c.is_admin ≡ true) × (c.user_id ≡ u)) call.clients

any-Admin :
    (u : ℕ) (cs : List Client)
    → any (λ c. c.is_admin && (c.user_id == u)) cs ≡ true
    → Any (λ c. (c.is_admin ≡ true) × (c.user_id ≡ u)) cs
any-Admin u [] h = absurd (ground arith)
any-Admin u (c ∷ cs) h = elim (Bool-cases (c.is_admin && (c.user_id == u))) [
  | inl t ↦ inl (ground arith)
  | inr f ↦ inr (any-Admin u cs (rw (f, any) at h))
]

not-both : (a b : Bool) → (a && b) ≡ false → a ≡ true → b ≡ true → ⊥
not-both a b h ha hb = absurd (ground arith)

Admin-any :
    (u : ℕ) (cs : List Client)
    → any (λ c. c.is_admin && (c.user_id == u)) cs ≡ false
    → Any (λ c. (c.is_admin ≡ true) × (c.user_id ≡ u)) cs
    → ⊥
Admin-any u [] h m = absurd m
Admin-any u (c ∷ cs) h m = elim (Bool-cases (c.is_admin && (c.user_id == u))) [
  | inl t ↦ let k : true ≡ false = rw (t, any) at h in absurd (ground arith)
  | inr f ↦ elim m [
    | inl (a, e) ↦
        not-both c.is_admin (c.user_id == u) f a (subst (λ w. (w == u) ≡ true) (sym e) (==_refl u))
    | inr rest ↦ Admin-any u cs (rw (f, any) at h) rest
  ]
]

includes_user_ids-AsksAsAdmin :
    (user_id : Option ℕ) (call : Call)
    → includes_user_ids user_id call ≡ true
    → AsksAsAdmin user_id call
includes_user_ids-AsksAsAdmin none call h = absurd (ground arith)
includes_user_ids-AsksAsAdmin (some u) call h = any-Admin u call.clients h

excludes-AsksAsAdmin :
    (user_id : Option ℕ) (call : Call)
    → includes_user_ids user_id call ≡ false
    → ¬ AsksAsAdmin user_id call
excludes-AsksAsAdmin none call h m = m
excludes-AsksAsAdmin (some u) call h m = Admin-any u call.clients h m

-- Who waits, with the users or without.
abbrev pub Listed : Bool → List NonParticipantClient → List (ℕ × Option ℕ) → Type 0
Listed named [] [] = Unit
Listed named [] (e ∷ es) = ⊥
Listed named (c ∷ cs) [] = ⊥
Listed named (c ∷ cs) (e ∷ es) =
    (e.0 ≡ c.demux_id) × (e.1 ≡ (if named then some c.user_id else none)) × Listed named cs es

Listed-map :
    (named b : Bool) (cs : List NonParticipantClient)
    → b ≡ named
    → Listed named cs (map (λ c. (c.demux_id, (if b then some c.user_id else none))) cs)
Listed-map named b [] e = tt
Listed-map named b (c ∷ cs) e =
    (refl, ap (λ n. if n then some c.user_id else none) e, Listed-map named b cs e)

-- The signaling information of a call lists every client that waits for approval, in order, by its
-- demux id. If the user who asks is an admin among the call's participants, each is listed with its
-- user; otherwise, also when no user asks, each is listed without.
pub get_call_signaling_info-anonymous :
    (call_id : ℕ) (user_id : Option ℕ) (sfu : Sfu) (call : Call)
    → Dict.get call_id sfu.call_by_call_id ≡ some call
    → (info : CallSignalingInfo) × (get_call_signaling_info call_id user_id sfu ≡ some info)
      × ((AsksAsAdmin user_id call × Listed true call.pending_clients info.pending_client_ids)
          ⊎ ((¬ AsksAsAdmin user_id call)
              × Listed false call.pending_clients info.pending_client_ids))
get_call_signaling_info-anonymous call_id user_id sfu call found = (
  signaling_info user_id call,
  ap (λ o. o >>= λ c. some (signaling_info user_id c)) found,
  elim (Bool-cases (includes_user_ids user_id call)) [
    | inl t ↦
        inl (includes_user_ids-AsksAsAdmin user_id call t, Listed-map true _ call.pending_clients t)
    | inr f ↦ inr (excludes-AsksAsAdmin user_id call f, Listed-map false _ call.pending_clients f)
  ],
)

-- ===== src/Sfu/Joining/Halfway.antt =====
-- A join whose key agreement fails, in backend/src/sfu.rs.
use signal_calling_service.Prelude.{
  ℕ, Bool, true, false, ◌≡◌, refl, sym, ap, subst, unwrap_or, ◌∙◌, ◌||◌, ◌==◌, ==_refl, any, some,
  List, [], ◌∷◌, ◌++◌, Result, ok, err, ◌⊎◌, ==_iff, Bool-cases, inl, inr, not, if-elim, arith,
}
use signal_calling_service.Prelude.Dict
use signal_calling_service.Call.State.{
  Call, ClientStatus, RegionRelation, contains, Client, NonParticipantClient, identities,
}
use signal_calling_service.Call.Members.{add_client, has_demux}
use signal_calling_service.Call.Members.View.{View, view}
use signal_calling_service.Call.Members.Spec.{add, newcomer, view-add_client}
use signal_calling_service.Sfu.{
  Sfu, SfuError, Join, has_client, new_call, duplicate_demux_id_detected,
}
use signal_calling_service.Sfu.Joining.{
  joined_call, put_call, connect, get_or_create_call_and_add_client,
}

-- `has_client` on what admission sees of a call.
abbrev knows : ℕ → View → Bool
knows id v =
    any (has_demux id) v.members || (any (has_demux id) v.pending || any (has_demux id) v.removed)

any-identities :
    (id : ℕ) (cs : List Client)
    → any (λ c. c.demux_id == id) cs ≡ any (has_demux id) (identities cs)
any-identities id [] = refl
any-identities id (c ∷ cs) = elim (Bool-cases (c.demux_id == id)) [
  | inl t ↦ rw (t, any) refl
  | inr f ↦ rw (f, any) (any-identities id cs)
]

has_client-knows : (id : ℕ) (call : Call) → has_client id call ≡ knows id (view call)
unfolding view
has_client-knows id call =
    ap
      (λ b.
        b || (any (has_demux id) call.pending_clients || any (has_demux id) call.removed_clients))
      (any-identities id call.clients)

or-last : (a b : Bool) → b ≡ true → (a || b) ≡ true
or-last true b h = refl
or-last false b h = h

or-first : (a b : Bool) → a ≡ true → (a || b) ≡ true
or-first true b h = refl
or-first false b h = absurd (ground arith)

any-last :
    (id : ℕ) (c : NonParticipantClient) (cs : List NonParticipantClient)
    → (c.demux_id == id) ≡ true
    → any (has_demux id) (cs ++ c ∷ []) ≡ true
any-last id c [] h = rw (h, any) refl
any-last id c (d ∷ cs) h = elim (Bool-cases (d.demux_id == id)) [
  | inl t ↦ rw (t, any) refl
  | inr f ↦ rw (f, any) (any-last id c cs h)
]

knows-add : (c : NonParticipantClient) (v : View) → knows c.demux_id (add c v).1 ≡ true
unfolding add
knows-add c v =
    if-elim {A = ClientStatus × View} (λ r. knows c.demux_id r.1 ≡ true)
      (contains c.user_id v.blocked)
      (λ _.
        or-last (any (has_demux c.demux_id) v.members) _
          (or-last (any (has_demux c.demux_id) v.pending) _ (last v.removed)))
      λ _.
        if-elim {A = ClientStatus × View} (λ r. knows c.demux_id r.1 ≡ true)
          (c.is_admin || (not v.require_approval || contains c.user_id v.approved.users))
          (λ _. rw (last v.members) refl)
          λ _. or-last (any (has_demux c.demux_id) v.members) _ (or-first _ _ (last v.pending))
  where
    last : (cs : List NonParticipantClient) → any (has_demux c.demux_id) (cs ++ c ∷ []) ≡ true
    last cs = any-last c.demux_id c cs (==_refl c.demux_id)

has_client-add_client :
    (scale : ℕ → ℕ) (id u : ℕ) (admin : Bool) (r : RegionRelation) (now : ℕ) (call : Call)
    → has_client id (add_client scale id u admin r now call).1 ≡ true
has_client-add_client scale id u admin r now call =
    has_client-knows id (add_client scale id u admin r now call).1
    ∙ ap (λ a. knows id a.1) (view-add_client scale id u admin r now call)
    ∙ knows-add (newcomer id u admin r) (view call)

or-elim : (a b : Bool) {P : Type 0} → (a ≡ true → P) → (b ≡ true → P) → (a || b) ≡ true → P
or-elim true b f g h = f refl
or-elim false b f g h = g h

any-append :
    (id : ℕ) (cs : List NonParticipantClient) (c : NonParticipantClient)
    → any (has_demux id) cs ≡ true
    → any (has_demux id) (cs ++ c ∷ []) ≡ true
any-append id [] c h = absurd (ground arith)
any-append id (d ∷ cs) c h = elim (Bool-cases (has_demux id d)) [
  | inl t ↦ rw (t, any) refl
  | inr f ↦ rw (f, any) (any-append id cs c (rw (f, any) at h))
]

-- Whoever is known stays known when another client is added.
knows-add_other :
    (id : ℕ) (c : NonParticipantClient) (v : View) → knows id v ≡ true → knows id (add c v).1 ≡ true
unfolding add
knows-add_other id c v h =
    if-elim {A = ClientStatus × View} (λ r. knows id r.1 ≡ true) (contains c.user_id v.blocked)
      (λ _.
        or-elim members _ (or-first _ _)
          (λ k. or-last members _ (
            or-elim pending _ (or-first _ _) (λ m. or-last pending _ (any-append id v.removed c m))
              k))
          h)
      λ _.
        if-elim {A = ClientStatus × View} (λ r. knows id r.1 ≡ true)
          (c.is_admin || (not v.require_approval || contains c.user_id v.approved.users))
          (λ _.
            or-elim members _ (λ m. or-first _ _ (any-append id v.members c m)) (λ k. or-last _ _ k)
              h)
          λ _.
            or-elim members _ (or-first _ _)
              (λ k. or-last members _ (
                or-elim pending _ (λ m. or-first _ _ (any-append id v.pending c m))
                  (λ m. or-last _ _ m) k))
              h
  where
    members : Bool
    members = any (has_demux id) v.members

    pending : Bool
    pending = any (has_demux id) v.pending

has_client-add_other :
    (scale : ℕ → ℕ) (id other u : ℕ) (admin : Bool) (r : RegionRelation) (now : ℕ) (call : Call)
    → has_client id call ≡ true
    → has_client id (add_client scale other u admin r now call).1 ≡ true
has_client-add_other scale id other u admin r now call h =
    has_client-knows id (add_client scale other u admin r now call).1
    ∙ ap (λ a. knows id a.1) (view-add_client scale other u admin r now call)
    ∙ knows-add_other id (newcomer other u admin r) (view call) (sym (has_client-knows id call) ∙ h)

-- A call of the registry has a client.
abbrev Has : ℕ → ℕ → Sfu → Type 0
Has call_id id sfu =
    (call : Call) × (Dict.get call_id sfu.call_by_call_id ≡ some call) × (has_client id call ≡ true)

joined_call-found :
    (now : ℕ) (j : Join) (sfu : Sfu) (call : Call)
    → Dict.get j.call_id sfu.call_by_call_id ≡ some call
    → joined_call now j sfu ≡ call
joined_call-found now j sfu call e =
    ap
      (λ o.
        unwrap_or o
          (new_call j.new_clients_require_approval sfu.config now (unwrap_or j.approved_users [])))
      e

Has-put_call :
    (call_id id k : ℕ) (new : Call) (sfu : Sfu)
    → (k ≡ call_id → has_client id new ≡ true)
    → Has call_id id sfu ⊎ (k ≡ call_id)
    → Has call_id id (put_call k new sfu)
Has-put_call call_id id k new sfu keeps had = elim (Bool-cases (k == call_id)) [
  | inl t ↦
      let same = (==_iff k call_id).0 t in
      (
        new,
        subst (λ j. Dict.get j (Dict.insert k new sfu.call_by_call_id) ≡ some new) same
            (Dict.get-put k new sfu.call_by_call_id),
        keeps same,
      )
  | inr f ↦ elim had [
    | inl (call, e, h) ↦ (call, Dict.get-other call_id k new sfu.call_by_call_id f ∙ e, h)
    | inr same ↦ absurd (ground arith)
  ]
]

module _ (scale : ℕ → ℕ) (agree : List ℕ → Result SfuError (List ℕ × List ℕ)) where
  -- An attempt to join, with its times.
  abbrev pub attempt : Sfu → ℕ × (ℕ × Join) → Sfu
  attempt sfu (now, (locked, j)) =
      (get_or_create_call_and_add_client scale agree now locked j sfu).1

  unfoldable pub attempts : Sfu → List (ℕ × (ℕ × Join)) → Sfu
  attempts sfu [] = sfu
  attempts sfu (a ∷ rest) = attempts (attempt sfu a) rest

  -- What joining leaves, but for the connections.
  Has-connect :
      (call_id id now : ℕ) (j : Join) (status : ClientStatus)
      (r : Result SfuError (List ℕ × List ℕ)) (sfu : Sfu)
      → Has call_id id sfu
      → Has call_id id (connect scale agree now j status r sfu).1
  Has-connect call_id id now j status (err e) sfu h = h
  Has-connect call_id id now j status (ok (key, secret)) sfu h = h

  Has-attempt :
      (call_id id : ℕ) (sfu : Sfu) (a : ℕ × (ℕ × Join))
      → Has call_id id sfu
      → Has call_id id (attempt sfu a)
  unfolding get_or_create_call_and_add_client
  Has-attempt call_id id sfu (now, (locked, j)) (call, e, h) =
      let there : j.call_id ≡ call_id → has_client id (joined_call now j sfu) ≡ true = λ same.
        ap (has_client id)
          (joined_call-found now j sfu call (ap (λ k. Dict.get k sfu.call_by_call_id) same ∙ e))
        ∙ h in
      if-elim (λ (r : Result SfuError (List ℕ × ClientStatus) × Sfu). Has call_id id r.1)
        (has_client j.demux_id (joined_call now j sfu))
        (λ _.
          Has-put_call call_id id j.call_id (joined_call now j sfu) sfu there (inl (call, e, h)))
        λ _. Has-connect call_id id now j _ (agree j.client_dhe_public_key) _ (
          Has-put_call call_id id j.call_id _ sfu
            (λ same.
              has_client-add_other scale id j.demux_id j.user_id j.is_admin j.region_relation locked
                (joined_call now j sfu) (there same))
            (inl (call, e, h)))

  Has-attempts :
      (call_id id : ℕ) (rest : List (ℕ × (ℕ × Join))) (sfu : Sfu)
      → Has call_id id sfu
      → Has call_id id (attempts sfu rest)
  unfolding attempts
  Has-attempts call_id id [] sfu h = h
  Has-attempts call_id id (a ∷ rest) sfu h =
      Has-attempts call_id id rest (attempt sfu a) (Has-attempt call_id id sfu a h)

  refuse-duplicate :
      (now locked : ℕ) (j : Join) (sfu : Sfu)
      → has_client j.demux_id (joined_call now j sfu) ≡ true
      → (get_or_create_call_and_add_client scale agree now locked j sfu).0
        ≡ err duplicate_demux_id_detected
  unfolding get_or_create_call_and_add_client
  refuse-duplicate now locked j sfu h = rw h refl

  refuse-known :
      (now locked : ℕ) (k : Join) (call_id id : ℕ) (sfu : Sfu)
      → k.call_id ≡ call_id
      → k.demux_id ≡ id
      → Has call_id id sfu
      → (get_or_create_call_and_add_client scale agree now locked k sfu).0
        ≡ err duplicate_demux_id_detected
  refuse-known now locked k call_id id sfu hc hd (call, e, h) = refuse-duplicate now locked k sfu (
      ap (has_client k.demux_id)
        (joined_call-found now k sfu call (ap (λ c. Dict.get c sfu.call_by_call_id) hc ∙ e))
      ∙ ap (λ d. has_client d call) hd
      ∙ h)

  -- When the key agreement with a client who is not in the call yet fails, the join returns the
  -- error, and no connection is added; but the call has the client all the same. So however many
  -- clients try to join, this call or others, with success or without, a later attempt to join the
  -- call with the same demux id is refused as a duplicate, as long as nothing but such attempts
  -- happens in between.
  pub join-Halfway :
      (now locked later locked' : ℕ) (j k : Join) (between : List (ℕ × (ℕ × Join))) (sfu : Sfu)
      (e : SfuError)
      → has_client j.demux_id (joined_call now j sfu) ≡ false
      → agree j.client_dhe_public_key ≡ err e
      → k.call_id ≡ j.call_id
      → k.demux_id ≡ j.demux_id
      → let (answer, after) = get_or_create_call_and_add_client scale agree now locked j sfu in
        (answer ≡ err e)
        × (after.connection_by_id ≡ sfu.connection_by_id)
        × ((get_or_create_call_and_add_client scale agree later locked' k
              (attempts after between)).0
            ≡ err duplicate_demux_id_detected)
  unfolding get_or_create_call_and_add_client
  join-Halfway now locked later locked' j k between sfu e fresh failed hc hd =
      let added =
        add_client scale j.demux_id j.user_id j.is_admin j.region_relation locked
          (joined_call now j sfu) in
      let called = put_call j.call_id added.1 sfu in
      let here : Has j.call_id j.demux_id called =
        Has-put_call j.call_id j.demux_id j.call_id added.1 sfu
          (λ _.
            has_client-add_client scale j.demux_id j.user_id j.is_admin j.region_relation locked
              (joined_call now j sfu))
          (inr refl) in
      rw (fresh, failed)
        (
          refl,
          refl,
          refuse-known later locked' k j.call_id j.demux_id (attempts called between) hc hd
              (Has-attempts j.call_id j.demux_id between called here),
        )

-- ===== src/Call/Members/Blocked.antt =====
-- Once blocked, a user does not come back.
use signal_calling_service.Prelude.{
  ℕ, Bool, true, Option, none, some, List, [], ◌∷◌, ◌++◌, ◌≡◌, inl, inr, arith, Bool-cases, sym,
  subst, ◌∙◌,
}
use signal_calling_service.Call.State.{
  NonParticipantClient, Call, RegionRelation, ClientStatus, blocked, contains, set_insert,
}
use signal_calling_service.Call.Members.{add_client}
use signal_calling_service.Call.Members.View.{View, view}
use signal_calling_service.Call.Members.Spec.{
  newcomer, add, approve_user, deny_user, block_user, drop_one, expel, if_found, view-add_client,
}
use signal_calling_service.Call.Members.Run.{
  Request, join, approves, denies, leave, removes, blocks, view_step, view_run, run, view-run,
}

abbrev IsBlocked : ℕ → View → Type 0
IsBlocked u v = contains u v.blocked ≡ true

contains-set_insert :
    (u w : ℕ) (us : List ℕ) → contains u us ≡ true → contains u (set_insert w us) ≡ true
contains-set_insert u w us h = ground arith

add-IsBlocked :
    (u : ℕ) (c : NonParticipantClient) (v : View) → IsBlocked u v → IsBlocked u (add c v).1
unfolding add
add-IsBlocked u c v h = ground arith

drop_one-IsBlocked : (u id : ℕ) (v : View) → IsBlocked u v → IsBlocked u (drop_one id v)
unfolding drop_one
drop_one-IsBlocked u id v h = ground arith

deny_user-IsBlocked : (u w : ℕ) (v : View) → IsBlocked u v → IsBlocked u (deny_user w v)
unfolding deny_user
deny_user-IsBlocked u w v h = elim (Bool-cases (contains w v.denied)) [
  | inl again ↦ rw again (contains-set_insert u w v.blocked h)
  | inr first ↦ rw first h
]

if_found-IsBlocked {ℓ} :
    {A : Type ℓ} (u : ℕ) (o : Option A) (op : A → View → View) (v : View)
    → ((a : A) → IsBlocked u (op a v))
    → IsBlocked u v
    → IsBlocked u (if_found o op v)
if_found-IsBlocked u none op v keeps h = h
if_found-IsBlocked u (some a) op v keeps h = keeps a

view_step-IsBlocked : (u : ℕ) (v : View) (r : Request) → IsBlocked u v → IsBlocked u (view_step v r)
unfolding view_step approve_user expel block_user
view_step-IsBlocked u v (join id w admin r) h = add-IsBlocked u _ v h
view_step-IsBlocked u v (approves id) h = if_found-IsBlocked u _ approve_user v (λ w. h) h
view_step-IsBlocked u v (denies id) h =
    if_found-IsBlocked u _ deny_user v (λ w. deny_user-IsBlocked u w v h) h
view_step-IsBlocked u v (leave id) h = drop_one-IsBlocked u id v h
view_step-IsBlocked u v (removes id) h = if_found-IsBlocked u _ (expel id) v (λ c. h) h
view_step-IsBlocked u v (blocks id) h =
    if_found-IsBlocked u _ block_user v (λ w. contains-set_insert u w v.blocked h) h

view_run-IsBlocked :
    (u : ℕ) (v : View) (rs : List (ℕ × Request)) → IsBlocked u v → IsBlocked u (view_run v rs)
unfolding view_run
view_run-IsBlocked u v [] h = h
view_run-IsBlocked u v ((now, r) ∷ rs) h =
    view_run-IsBlocked u (view_step v r) rs (view_step-IsBlocked u v r h)

-- The answer to a blocked client, and its effect.
abbrev pub turned_away : NonParticipantClient → View → ClientStatus × View
turned_away c v = (blocked, record v { removed = v.removed ++ (c ∷ []) })

add-blocked :
    (c : NonParticipantClient) (v : View) → IsBlocked c.user_id v → add c v ≡ turned_away c v
unfolding add
add-blocked c v h = rw h

-- A blocked user stays out for good: after any history of requests, a client of the user who tries
-- to join, even as an admin, is told that it is blocked, and becomes a removed client; the
-- participants and the pending clients stay as they are.
pub add_client-run_blocked :
    (scale : ℕ → ℕ) (call : Call) (rs : List (ℕ × Request)) (id u : ℕ) (admin : Bool)
    (r : RegionRelation) (now : ℕ)
    → contains u call.blocked_users ≡ true
    → let before = run scale call rs in
      let (status, after) = add_client scale id u admin r now before in
      (status, view after) ≡ turned_away (newcomer id u admin r) (view before)
unfolding view
add_client-run_blocked scale call rs id u admin r now h =
    view-add_client scale id u admin r now (run scale call rs)
    ∙ add-blocked (newcomer id u admin r) (view (run scale call rs))
        (subst (IsBlocked u) (sym (view-run scale call rs)) (view_run-IsBlocked u (view call) rs h))

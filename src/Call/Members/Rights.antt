-- ===== src/Call/Members/Rights.antt =====
-- Every request keeps a call to those who may take part in it, and a blocked user stays blocked.
use signal_calling_service.Prelude.{
  ℕ, Bool, true, false, not, ◌||◌, Option, none, some, List, [], ◌∷◌, ◌++◌, ◌≡◌, ==_iff, inl, inr,
  arith, All, All-append, All-keep, All-imp, All-zip, any-false, keep-passes, Bool-cases, any,
  if◌then◌else◌, subst, sym,
}
use signal_calling_service.Call.State.{NonParticipantClient, ApprovedUsers, Call, contains, approve}
use signal_calling_service.Call.Members.{swap_remove, has_demux, has_user}
use signal_calling_service.Call.Members.View.{View, view}
use signal_calling_service.Call.Members.Spec.{
  add, approve_user, deny_user, block_user, drop_one, expel, if_found,
}
use signal_calling_service.Call.Members.Run.{
  Request, join, approves, denies, leave, removes, blocks, view_step, view_run, run, view-run,
}
use signal_calling_service.Call.Members.Admission.{
  MayJoin, OnlyAdmitted, MayJoin-approve, MayJoin-revoke, contains-approve_self, All-swap_remove,
}

MayJoin-newcomer :
    (c : NonParticipantClient) (need : Bool) (a : ApprovedUsers)
    → need ≡ true
    → (c.is_admin || (not need || contains c.user_id a.users)) ≡ true
    → MayJoin a c
MayJoin-newcomer c need a required joins = elim (Bool-cases c.is_admin) [
  | inl admin ↦ inl admin
  | inr guest ↦ inr (ground arith)
]

joined-OnlyAdmitted :
    (c : NonParticipantClient) (persist : Bool) (a : ApprovedUsers) (ms : List NonParticipantClient)
    → MayJoin a c
    → All (MayJoin a) ms
    → All (MayJoin (if persist then approve c.user_id a else a)) (ms ++ (c ∷ []))
joined-OnlyAdmitted c true a ms may h =
    All-append _ ms (c ∷ []) (All-imp (λ d. MayJoin-approve c.user_id a d) ms h)
      (MayJoin-approve c.user_id a c may, tt)
joined-OnlyAdmitted c false a ms may h = All-append _ ms (c ∷ []) h (may, tt)

add-OnlyAdmitted : (c : NonParticipantClient) (v : View) → OnlyAdmitted v → OnlyAdmitted (add c v).1
unfolding add
add-OnlyAdmitted c v h = elim (Bool-cases (contains c.user_id v.blocked)) [
  | inl out ↦ rw out h
  | inr free ↦
      elim (Bool-cases
        (c.is_admin || (not v.require_approval || contains c.user_id v.approved.users))) [
          | inl joins ↦
              rw (free, joins)
                (λ need.
                  joined-OnlyAdmitted c v.persist_approval v.approved v.members
                    (MayJoin-newcomer c v.require_approval v.approved need joins) (h need))
          | inr waits ↦ rw (free, waits) h
        ]
]

approve_user-OnlyAdmitted : (u : ℕ) (v : View) → OnlyAdmitted v → OnlyAdmitted (approve_user u v)
unfolding approve_user
approve_user-OnlyAdmitted u v h need =
    All-append (MayJoin (approve u v.approved)) v.members _
      (All-imp (λ c. MayJoin-approve u v.approved c) v.members (h need))
      (All-imp
        (λ c own. inr (
          subst (λ w. contains w (approve u v.approved).users ≡ true)
            (sym ((==_iff c.user_id u).0 own)) (contains-approve_self u v.approved)))
        _ (keep-passes (has_user u) v.pending))

not-false : (b : Bool) → not b ≡ true → b ≡ false
not-false b h = ground arith

block_user-OnlyAdmitted : (u : ℕ) (v : View) → OnlyAdmitted v → OnlyAdmitted (block_user u v)
unfolding block_user
block_user-OnlyAdmitted u v h need =
    All-zip (λ c ne may. MayJoin-revoke u v.approved c (not-false (has_user u c) ne) may) _
      (keep-passes (λ c. not (has_user u c)) v.members)
      (All-keep (MayJoin v.approved) (λ c. not (has_user u c)) v.members (h need))

expel-OnlyAdmitted :
    (id : ℕ) (c : NonParticipantClient) (v : View) → OnlyAdmitted v → OnlyAdmitted (expel id c v)
unfolding expel
expel-OnlyAdmitted id c v h need =
    elim (Bool-cases (any (has_user c.user_id) (swap_remove (has_demux id) v.members))) [
      | inl stays ↦
          rw stays (All-swap_remove (MayJoin v.approved) (has_demux id) v.members (h need))
      | inr last ↦ rw last (
          All-zip (λ d ne may. MayJoin-revoke c.user_id v.approved d ne may) _
            (any-false (has_user c.user_id) _ last)
            (All-swap_remove (MayJoin v.approved) (has_demux id) v.members (h need)))
    ]

drop_one-OnlyAdmitted : (id : ℕ) (v : View) → OnlyAdmitted v → OnlyAdmitted (drop_one id v)
unfolding drop_one
drop_one-OnlyAdmitted id v h = elim (Bool-cases (any (has_demux id) v.members)) [
  | inl member ↦
      rw member (λ need. All-swap_remove (MayJoin v.approved) (has_demux id) v.members (h need))
  | inr other ↦ elim (Bool-cases (any (has_demux id) v.pending)) [
    | inl waiting ↦ rw (other, waiting) h
    | inr gone ↦ rw (other, gone) h
  ]
]

if_found_keeps {ℓ} :
    {A : Type ℓ} (P : View → Type 0) (o : Option A) (op : A → View → View) (v : View)
    → ((a : A) → P v → P (op a v))
    → P v
    → P (if_found o op v)
if_found_keeps P none op v keeps h = h
if_found_keeps P (some a) op v keeps h = keeps a h

view_step-OnlyAdmitted : (v : View) (r : Request) → OnlyAdmitted v → OnlyAdmitted (view_step v r)
unfolding view_step deny_user
view_step-OnlyAdmitted v (join id u admin r) h = add-OnlyAdmitted _ v h
view_step-OnlyAdmitted v (approves id) h =
    if_found_keeps OnlyAdmitted _ approve_user v (λ u. approve_user-OnlyAdmitted u v) h
view_step-OnlyAdmitted v (denies id) h = if_found_keeps OnlyAdmitted _ deny_user v (λ u k. k) h
view_step-OnlyAdmitted v (leave id) h = drop_one-OnlyAdmitted id v h
view_step-OnlyAdmitted v (removes id) h =
    if_found_keeps OnlyAdmitted _ (expel id) v (λ c. expel-OnlyAdmitted id c v) h
view_step-OnlyAdmitted v (blocks id) h =
    if_found_keeps OnlyAdmitted _ block_user v (λ u. block_user-OnlyAdmitted u v) h

view_run-OnlyAdmitted :
    (v : View) (rs : List (ℕ × Request)) → OnlyAdmitted v → OnlyAdmitted (view_run v rs)
unfolding view_run
view_run-OnlyAdmitted v [] h = h
view_run-OnlyAdmitted v ((now, r) ∷ rs) h =
    view_run-OnlyAdmitted (view_step v r) rs (view_step-OnlyAdmitted v r h)

-- In a call whose newcomers need approval, if every participant is an admin or a client of an
-- approved user, the same holds after any history of requests.
pub run-OnlyAdmitted :
    (scale : ℕ → ℕ) (call : Call) (rs : List (ℕ × Request))
    → OnlyAdmitted (view call)
    → OnlyAdmitted (view (run scale call rs))
run-OnlyAdmitted scale call rs h =
    rw (view-run scale call rs) (view_run-OnlyAdmitted (view call) rs h)

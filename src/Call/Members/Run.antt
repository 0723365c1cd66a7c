-- ===== src/Call/Members/Run.antt =====
-- Histories of joining, leaving and the admin's decisions.
use signal_calling_service.Prelude.{ℕ, Bool, List, [], ◌∷◌, ◌≡◌, refl, ◌∙◌, ap, find}
use signal_calling_service.Call.State.{RegionRelation, Call}
use signal_calling_service.Call.Members.{
  add_client, approve_pending_client, deny_pending_client, drop_client, force_remove_client,
  block_client, has_demux, user_of,
}
use signal_calling_service.Call.Members.View.{View, view}
use signal_calling_service.Call.Members.Spec.{
  newcomer, add, approve_user, deny_user, block_user, drop_one, expel, if_found, view-add_client,
  view-approve_pending_client, view-deny_pending_client,
}
use signal_calling_service.Call.Members.Removal.{
  view-force_remove_client, view-drop_client, view-block_client,
}

pub data Request : Type 0 where
  join : ℕ → ℕ → Bool → RegionRelation → Request
  approves denies leave removes blocks : ℕ → Request

-- A request with the time at which it arrives.
unfoldable pub step : (ℕ → ℕ) → Call → ℕ × Request → Call
step scale call (now, join id u admin r) = (add_client scale id u admin r now call).1
step scale call (now, approves id) = approve_pending_client scale id now call
step scale call (now, denies id) = deny_pending_client scale id now call
step scale call (now, leave id) = drop_client scale id now call
step scale call (now, removes id) = force_remove_client scale id now call
step scale call (now, blocks id) = block_client scale id now call

unfoldable pub run : (ℕ → ℕ) → Call → List (ℕ × Request) → Call
run scale call [] = call
run scale call (r ∷ rs) = run scale (step scale call r) rs

unfoldable pub view_step : View → Request → View
view_step v (join id u admin r) = (add (newcomer id u admin r) v).1
view_step v (approves id) = if_found (user_of id v.pending) approve_user v
view_step v (denies id) = if_found (user_of id v.pending) deny_user v
view_step v (leave id) = drop_one id v
view_step v (removes id) = if_found (find (has_demux id) v.members) (expel id) v
view_step v (blocks id) = if_found (user_of id v.members) block_user v

unfoldable pub view_run : View → List (ℕ × Request) → View
view_run v [] = v
view_run v ((now, r) ∷ rs) = view_run (view_step v r) rs

view-step :
    (scale : ℕ → ℕ) (call : Call) (r : ℕ × Request)
    → view (step scale call r) ≡ view_step (view call) r.1
unfolding step view_step
view-step scale call (now, join id u admin r) =
    ap (λ p. p.1) (view-add_client scale id u admin r now call)
view-step scale call (now, approves id) = view-approve_pending_client scale id now call
view-step scale call (now, denies id) = view-deny_pending_client scale id now call
view-step scale call (now, leave id) = view-drop_client scale id now call
view-step scale call (now, removes id) = view-force_remove_client scale id now call
view-step scale call (now, blocks id) = view-block_client scale id now call

-- Refinement: after any history of requests, the participants, pending and removed clients and the
-- approved, denied and blocked users are those that the specification of admission computes from
-- the ones before it. Video allocation, padding, raised hands and the clock make no difference.
pub view-run :
    (scale : ℕ → ℕ) (call : Call) (rs : List (ℕ × Request))
    → view (run scale call rs) ≡ view_run (view call) rs
unfolding run view_run
view-run scale call [] = refl
view-run scale call (r ∷ rs) =
    view-run scale (step scale call r) rs ∙ ap (λ v. view_run v rs) (view-step scale call r)

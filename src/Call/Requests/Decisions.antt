-- ===== src/Call/Requests/Decisions.antt =====
-- The decisions in a message of a device, of backend/src/call.rs, as requests of admission.
use signal_calling_service.Prelude.{
  ℕ, ◌≡◌, refl, ap, ◌∙◌, false, Option, none, some, List, [], ◌∷◌, ◌++◌, arith,
}
use signal_calling_service.Call.Messages.{DeviceToSfu}
use signal_calling_service.Call.State.{Call}
use signal_calling_service.Call.Members.View.{View, view}
use signal_calling_service.Call.Members.Run.{Request, approves, denies, removes, blocks, view_step}
use signal_calling_service.Call.Requests.{target, act_on, for_each_target, any_action}

-- The requests of one kind, to those targets that are demux ids.
abbrev pub ask : (ℕ → Request) → Option ℕ → List Request → List Request
ask r none rs = rs
ask r (some id) rs = r id ∷ rs

abbrev pub to_targets : (ℕ → Request) → List (Option ℕ) → List Request
to_targets r [] = []
to_targets r (t ∷ ts) = ask r (target t) (to_targets r ts)

abbrev pub requests : DeviceToSfu → List Request
requests m =
    to_targets approves m.approve
    ++ (to_targets denies m.deny ++ (to_targets removes m.remove ++ to_targets blocks m.block))

abbrev pub step_all : View → List Request → View
step_all v [] = v
step_all v (r ∷ rs) = step_all (view_step v r) rs

pub step_all-append :
    (rs qs : List Request) (v : View) → step_all v (rs ++ qs) ≡ step_all (step_all v rs) qs
step_all-append [] qs v = refl
step_all-append (r ∷ rs) qs v = step_all-append rs qs (view_step v r)

module _ (act : ℕ → Call → Call) (r : ℕ → Request)
    (acts : (id : ℕ) (call : Call) → view (act id call) ≡ view_step (view call) (r id)) where
  step_all-act_on :
      (o : Option ℕ) (rs : List Request) (call : Call)
      → step_all (view (act_on act o call)) rs ≡ step_all (view call) (ask r o rs)
  step_all-act_on none rs call = refl
  step_all-act_on (some id) rs call = ap (λ v. step_all v rs) (acts id call)

  pub view-for_each_target :
      (ts : List (Option ℕ)) (call : Call)
      → view (for_each_target act ts call) ≡ step_all (view call) (to_targets r ts)
  unfolding for_each_target
  view-for_each_target [] call = refl
  view-for_each_target (t ∷ ts) call =
      view-for_each_target ts (act_on act (target t) call)
      ∙ step_all-act_on (target t) (to_targets r ts) call

pub requests_none :
    (a d r b : List (Option ℕ))
    → any_action a d r b ≡ false
    → to_targets approves a
        ++ (to_targets denies d ++ (to_targets removes r ++ to_targets blocks b))
      ≡ []
requests_none [] [] [] [] h = refl
requests_none (x ∷ a) d r b h = absurd (ground arith)
requests_none [] (x ∷ d) r b h = absurd (ground arith)
requests_none [] [] (x ∷ r) b h = absurd (ground arith)
requests_none [] [] [] (x ∷ b) h = absurd (ground arith)

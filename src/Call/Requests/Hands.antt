-- ===== src/Call/Requests/Hands.antt =====
-- Raising a hand changes nobody's admission, in backend/src/call.rs.
use signal_calling_service.Prelude.{
  ℕ, ◌≡◌, refl, Bool, if-elim, Option, none, some, List, [], ltb, unwrap_or,
}
use signal_calling_service.Prelude.Dict.{get}
use signal_calling_service.Call.Messages.{RaiseHand}
use signal_calling_service.Call.State.{RaisedHand, Call}
use signal_calling_service.Call.Members.View.{view}
use signal_calling_service.Call.Hands.{handle_raise_hand, update_hands, modify_hand, has_hand}
use signal_calling_service.Call.Requests.{raise_if}

view-modify_hand :
    (now : ℕ) (h : RaisedHand) (n : ℕ) (hs : List RaisedHand) (call : Call) (o : Option ℕ)
    → view (modify_hand now h n hs call o) ≡ view call
unfolding view
view-modify_hand now h n hs call none = refl
view-modify_hand now h n hs call (some m) =
    if-elim (λ (c : Call). view c ≡ view call) (ltb m n) (λ _. refl) λ _. refl

view-update_hands :
    (now : ℕ) (h : RaisedHand) (n : ℕ) (hs : List RaisedHand) (call : Call)
    → view (update_hands now h n hs call) ≡ view call
unfolding view
view-update_hands now h n hs call =
    if-elim (λ (c : Call). view c ≡ view call) (has_hand h.demux_id hs)
      (λ _. view-modify_hand now h n hs call (get h.demux_id call.raised_hands_seqnums)) λ _. refl

view-fields :
    (now : ℕ) (raise : Option Bool) (seqnum : Option ℕ) (sender : ℕ) (call : Call)
    → view (handle_raise_hand now (record { raise = raise; seqnum = seqnum }) sender call)
      ≡ view call
unfolding handle_raise_hand
view-fields now none n sender call = refl
view-fields now (some up) none sender call = refl
view-fields now (some up) (some n) sender call =
    view-update_hands now (record { demux_id = sender; raise = up }) n
      (unwrap_or call.raised_hands []) call

pub view-raise_if :
    (now : ℕ) (m : Option RaiseHand) (sender : ℕ) (call : Call)
    → view (raise_if now m sender call) ≡ view call
view-raise_if now none sender call = refl
view-raise_if now (some m) sender call = view-fields now m.raise m.seqnum sender call

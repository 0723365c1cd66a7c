-- ===== src/Call/Hands.antt =====
-- `Call::handle_raise_hand` of backend/src/call.rs: the queue of raised hands, each with the number
-- of the message that raised or lowered it.
use signal_calling_service.Prelude.{
  ℕ, ◌-◌, ◌≡◌, refl, Bool, true, false, ◌==◌, ltb, if◌then◌else◌, if-elim, Option, none, some,
  unwrap_or, List, [], ◌∷◌, ◌++◌, any, arith,
}
use signal_calling_service.Prelude.Dict.{get, insert, get-put}
use signal_calling_service.Call.State.{Call, RaisedHand}
use signal_calling_service.Call.Messages.{RaiseHand}
use signal_calling_service.Call.Intervals.{raised_hands_message_interval}

abbrev pub has_hand : ℕ → List RaisedHand → Bool
has_hand id = any (λ h. h.demux_id == id)

-- `Vec::remove` at the position of the device.
abbrev pub remove_hand : ℕ → List RaisedHand → List RaisedHand
remove_hand id [] = []
remove_hand id (h ∷ hs) = if h.demux_id == id then hs else h ∷ remove_hand id hs

-- The hand goes to the end of the queue, its number is noted, and the next tick tells the clients.
abbrev pub put_hand : ℕ → RaisedHand → ℕ → List RaisedHand → Call → Call
put_hand now hand seqnum hands call = record call {
  raised_hands = some (hands ++ (hand ∷ []));
  raised_hands_seqnums = insert hand.demux_id seqnum call.raised_hands_seqnums;
  raised_hands_sent = now - raised_hands_message_interval;
}

-- For a device that has a hand in the queue, with the number that is noted for it.
abbrev pub modify_hand : ℕ → RaisedHand → ℕ → List RaisedHand → Call → Option ℕ → Call
modify_hand now hand seqnum hands call none = record call { raised_hands = some hands }
modify_hand now hand seqnum hands call (some current_seqnum) =
    if ltb current_seqnum seqnum
    then put_hand now hand seqnum (remove_hand hand.demux_id hands) call
    else record call { raised_hands = some hands }

abbrev pub update_hands : ℕ → RaisedHand → ℕ → List RaisedHand → Call → Call
update_hands now hand seqnum hands call =
    if has_hand hand.demux_id hands
    then modify_hand now hand seqnum hands call (get hand.demux_id call.raised_hands_seqnums)
    else put_hand now hand seqnum hands call

unfoldable pub handle_raise_hand : ℕ → RaiseHand → ℕ → Call → Call
handle_raise_hand now message sender call = elim message.raise [
  | none ↦ call
  | some up ↦ elim message.seqnum [
    | none ↦ call
    | some n ↦
        update_hands now (record { demux_id = sender; raise = up }) n
          (unwrap_or call.raised_hands []) call
  ]
]

has_hand-put : (h : RaisedHand) (hs : List RaisedHand) → has_hand h.demux_id (hs ++ (h ∷ [])) ≡ true
has_hand-put h [] = ground arith
has_hand-put h (g ∷ hs) = ground (arith, has_hand-put h hs)

ltb_irrefl : (n : ℕ) → ltb n n ≡ false
ltb_irrefl n = ground arith

-- The number that was noted with a hand is not newer than itself.
update_hands-put_hand :
    (later now : ℕ) (h : RaisedHand) (n : ℕ) (hs : List RaisedHand) (call : Call)
    → update_hands later h n (hs ++ (h ∷ [])) (put_hand now h n hs call) ≡ put_hand now h n hs call
update_hands-put_hand later now h n hs call =
    rw (has_hand-put h hs, get-put h.demux_id n call.raised_hands_seqnums, ltb_irrefl n) refl

-- A call that a second delivery of the message leaves as it is.
abbrev Settled : ℕ → RaisedHand → ℕ → Call → Type 0
Settled later h n call = update_hands later h n (unwrap_or call.raised_hands []) call ≡ call

modify_hand-Settled :
    (later now : ℕ) (h : RaisedHand) (n : ℕ) (hs : List RaisedHand) (call : Call) (o : Option ℕ)
    → has_hand h.demux_id hs ≡ true
    → get h.demux_id call.raised_hands_seqnums ≡ o
    → Settled later h n (modify_hand now h n hs call o)
modify_hand-Settled later now h n hs call none t e = rw (t, e) refl
modify_hand-Settled later now h n hs call (some current) t e =
    if-elim (Settled later h n) (ltb current n)
      (λ newer. update_hands-put_hand later now h n (remove_hand h.demux_id hs) call)
      λ stale. rw (t, e, stale) refl

update_hands-Settled :
    (later now : ℕ) (h : RaisedHand) (n : ℕ) (hs : List RaisedHand) (call : Call)
    → Settled later h n (update_hands now h n hs call)
update_hands-Settled later now h n hs call =
    if-elim (Settled later h n) (has_hand h.demux_id hs)
      (λ t.
        modify_hand-Settled later now h n hs call (get h.demux_id call.raised_hands_seqnums) t refl)
      λ f. update_hands-put_hand later now h n hs call

fields-twice :
    (now later : ℕ) (raise : Option Bool) (seqnum : Option ℕ) (sender : ℕ) (call : Call)
    → let message : RaiseHand = record { raise = raise; seqnum = seqnum } in
      let once = handle_raise_hand now message sender call in
      handle_raise_hand later message sender once ≡ once
unfolding handle_raise_hand
fields-twice now later none seqnum sender call = refl
fields-twice now later (some up) none sender call = refl
fields-twice now later (some up) (some n) sender call =
    update_hands-Settled later now (record { demux_id = sender; raise = up }) n
      (unwrap_or call.raised_hands []) call

-- A raise-hand message that reaches a call twice, at whatever times, changes what the first of the
-- two left in no way: neither the queue and its numbers, nor when the clients are told.
pub handle_raise_hand-twice :
    (now later : ℕ) (message : RaiseHand) (sender : ℕ) (call : Call)
    → let once = handle_raise_hand now message sender call in
      handle_raise_hand later message sender once ≡ once
handle_raise_hand-twice now later message sender call =
    fields-twice now later message.raise message.seqnum sender call

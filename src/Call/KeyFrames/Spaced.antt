-- ===== src/Call/KeyFrames/Spaced.antt =====
-- How often key frames of an SSRC are requested, in backend/src/call.rs.
use signal_calling_service.Prelude.{
  ℕ, ◌+◌, ◌≤◌, ◌≡◌, refl, ap, subst, ◌∙◌, Bool, false, ◌==◌, ltb, Option, some, unwrap_or, if-elim,
  Bool-cases, inl, inr, List, [], ◌∷◌, All, arith, ◌⊎◌, ==_iff,
}
use signal_calling_service.Prelude.Dict.{get, insert, get-insert, get-put, get-other}
use signal_calling_service.Call.Intervals.{
  key_frame_request_calculation_interval, key_frame_request_resend_interval,
}
use signal_calling_service.Call.State.{Call}
use signal_calling_service.Call.KeyFrames.{
  incoming_video_height, desired_incoming_ssrcs, too_soon, request_each,
  send_key_frame_requests_if_its_been_too_long, Requested,
}

abbrev waits : ℕ → Call → ℕ → List (ℕ × ℕ) → Bool
waits now call ssrc sent =
    too_soon now (unwrap_or (incoming_video_height ssrc call) 0) (get ssrc sent)

late_enough :
    (now height before : ℕ)
    → too_soon now height (some before) ≡ false
    → before + key_frame_request_resend_interval ≤ now
late_enough now height before h = ground arith

-- A request that is sent was not sent within the interval before.
request_each-spaced :
    (now : ℕ) (call : Call) (ssrcs : List ℕ) (sent : List (ℕ × ℕ)) (ssrc before : ℕ)
    → Requested ssrc (request_each now call ssrcs sent).0
    → get ssrc sent ≡ some before
    → before + key_frame_request_resend_interval ≤ now
unfolding request_each
request_each-spaced now call [] sent ssrc before r g = absurd r
request_each-spaced now call (s ∷ ssrcs) sent ssrc before r g =
    let head : s ≡ ssrc
        → waits now call s sent ≡ false
        → before + key_frame_request_resend_interval ≤ now =
      λ e f. late_enough now (unwrap_or (incoming_video_height s call) 0) before (
        subst (λ o. too_soon now (unwrap_or (incoming_video_height s call) 0) o ≡ false)
          (ap (λ k. get k sent) e ∙ g) f) in
    elim (Bool-cases (waits now call s sent)) [
      | inl t ↦ request_each-spaced now call ssrcs sent ssrc before (rw (t, request_each) at r) g
      | inr f ↦
          let split : (s ≡ ssrc)
              ⊎ Requested ssrc (request_each now call ssrcs (insert s now sent)).0 =
            rw (f, request_each) at r in
          elim split [
            | inl e ↦ head e f
            | inr m ↦ elim (Bool-cases (s == ssrc)) [
              | inl same ↦ head ((==_iff s ssrc).0 same) f
              | inr other ↦
                  request_each-spaced now call ssrcs (insert s now sent) ssrc before m
                    (get-other ssrc s now sent other ∙ g)
            ]
          ]
    ]

-- What was noted now stays noted.
request_each-keeps :
    (now : ℕ) (call : Call) (ssrcs : List ℕ) (sent : List (ℕ × ℕ)) (ssrc : ℕ)
    → get ssrc sent ≡ some now
    → get ssrc (request_each now call ssrcs sent).1 ≡ some now
unfolding request_each
request_each-keeps now call [] sent ssrc g = g
request_each-keeps now call (s ∷ ssrcs) sent ssrc g = elim (Bool-cases (waits now call s sent)) [
  | inl t ↦ rw (t, request_each) (request_each-keeps now call ssrcs sent ssrc g)
  | inr f ↦
      rw (f, request_each)
        (request_each-keeps now call ssrcs (insert s now sent) ssrc (
          get-insert ssrc s now sent
          ∙ if-elim (λ (o : Option ℕ). o ≡ some now) (s == ssrc) (λ _. refl) λ _. g))
]

-- The time of a request that is sent is noted.
request_each-noted :
    (now : ℕ) (call : Call) (ssrcs : List ℕ) (sent : List (ℕ × ℕ)) (ssrc : ℕ)
    → Requested ssrc (request_each now call ssrcs sent).0
    → get ssrc (request_each now call ssrcs sent).1 ≡ some now
unfolding request_each
request_each-noted now call [] sent ssrc r = absurd r
request_each-noted now call (s ∷ ssrcs) sent ssrc r = elim (Bool-cases (waits now call s sent)) [
  | inl t ↦
      rw (t, request_each) (request_each-noted now call ssrcs sent ssrc (rw (t, request_each) at r))
  | inr f ↦
      let split : (s ≡ ssrc) ⊎ Requested ssrc (request_each now call ssrcs (insert s now sent)).0 =
        rw (f, request_each) at r in
      rw (f, request_each)
        (elim split [
          | inl e ↦
              request_each-keeps now call ssrcs (insert s now sent) ssrc
                (subst (λ k. get k (insert s now sent) ≡ some now) e (get-put s now sent))
          | inr m ↦ request_each-noted now call ssrcs (insert s now sent) ssrc m
        ])
]

-- A request was sent at `since` or later.
abbrev Late : ℕ → ℕ → List (ℕ × ℕ) → Type 0
Late since ssrc sent = (t : ℕ) × (get ssrc sent ≡ some t) × (since ≤ t)

request_each-Late :
    (now : ℕ) (call : Call) (ssrcs : List ℕ) (sent : List (ℕ × ℕ)) (since ssrc : ℕ)
    → since ≤ now
    → Late since ssrc sent
    → Late since ssrc (request_each now call ssrcs sent).1
unfolding request_each
request_each-Late now call [] sent since ssrc le l = l
request_each-Late now call (s ∷ ssrcs) sent since ssrc le l =
    elim (Bool-cases (waits now call s sent)) [
      | inl t ↦ rw (t, request_each) (request_each-Late now call ssrcs sent since ssrc le l)
      | inr f ↦
          rw (f, request_each)
            (request_each-Late now call ssrcs (insert s now sent) since ssrc le
              (elim (Bool-cases (s == ssrc)) [
                | inl same ↦ (
                  now,
                  subst (λ k. get k (insert s now sent) ≡ some now) ((==_iff s ssrc).0 same)
                      (get-put s now sent),
                  le,
                )
                | inr other ↦ (l.0, get-other ssrc s now sent other ∙ l.1, l.2)
              ]))
    ]

-- Rounds of requests, each at its time and in a state of the call of its own, but for the times of
-- the requests, which are kept from one round to the next.
abbrev pub round : List (ℕ × ℕ) → ℕ × Call → List (ℕ × ℕ) × Call
round sent (now, call) =
    send_key_frame_requests_if_its_been_too_long now
      (record call { key_frame_request_sent_by_ssrc = sent })

unfoldable pub rounds : List (ℕ × ℕ) → List (ℕ × Call) → List (ℕ × ℕ)
rounds sent [] = sent
rounds sent (r ∷ rs) = rounds (round sent r).1.key_frame_request_sent_by_ssrc rs

round-Late :
    (sent : List (ℕ × ℕ)) (r : ℕ × Call) (since ssrc : ℕ)
    → since ≤ r.0
    → Late since ssrc sent
    → Late since ssrc (round sent r).1.key_frame_request_sent_by_ssrc
unfolding send_key_frame_requests_if_its_been_too_long
round-Late sent (now, call) since ssrc le l =
    if-elim (λ (o : List (ℕ × ℕ) × Call). Late since ssrc o.1.key_frame_request_sent_by_ssrc)
      (ltb now (call.key_frame_requests_sent + key_frame_request_calculation_interval)) (λ _. l)
      λ _. request_each-Late now _ (desired_incoming_ssrcs call.clients []) sent since ssrc le l

rounds-Late :
    (sent : List (ℕ × ℕ)) (rs : List (ℕ × Call)) (since ssrc : ℕ)
    → All (λ r. since ≤ r.0) rs
    → Late since ssrc sent
    → Late since ssrc (rounds sent rs)
unfolding rounds
rounds-Late sent [] since ssrc le l = l
rounds-Late sent (r ∷ rs) since ssrc le l =
    rounds-Late (round sent r).1.key_frame_request_sent_by_ssrc rs since ssrc le.1
      (round-Late sent r since ssrc le.0 l)

round-noted :
    (sent : List (ℕ × ℕ)) (r : ℕ × Call) (ssrc : ℕ)
    → Requested ssrc (round sent r).0
    → get ssrc (round sent r).1.key_frame_request_sent_by_ssrc ≡ some r.0
unfolding send_key_frame_requests_if_its_been_too_long
round-noted sent (now, call) ssrc q =
    if-elim
      (λ (o : List (ℕ × ℕ) × Call).
        Requested ssrc o.0 → get ssrc o.1.key_frame_request_sent_by_ssrc ≡ some now)
      (ltb now (call.key_frame_requests_sent + key_frame_request_calculation_interval))
      (λ _ n. absurd n)
      (λ _ n. request_each-noted now _ (desired_incoming_ssrcs call.clients []) sent ssrc n) q

round-spaced :
    (sent : List (ℕ × ℕ)) (r : ℕ × Call) (ssrc before : ℕ)
    → get ssrc sent ≡ some before
    → Requested ssrc (round sent r).0
    → before + key_frame_request_resend_interval ≤ r.0
unfolding send_key_frame_requests_if_its_been_too_long
round-spaced sent (now, call) ssrc before g q =
    if-elim
      (λ (o : List (ℕ × ℕ) × Call).
        Requested ssrc o.0 → before + key_frame_request_resend_interval ≤ now)
      (ltb now (call.key_frame_requests_sent + key_frame_request_calculation_interval))
      (λ _ n. absurd n)
      (λ _ n.
        request_each-spaced now _ (desired_incoming_ssrcs call.clients []) sent ssrc before n g)
      q

-- When two rounds of `send_key_frame_requests_if_its_been_too_long` request key frames of an SSRC,
-- the second is at least 200 milliseconds after the first, however many rounds come between them, in
-- whatever states of the call and whatever they request, as long as the times of the requests are
-- kept from one round to the next and no round between them is earlier than the first. (The requests
-- that a tick adds for a new active speaker are not of such a round.)
pub send_key_frame_requests-spaced :
    (sent : List (ℕ × ℕ)) (first last : ℕ × Call) (between : List (ℕ × Call)) (ssrc : ℕ)
    → All (λ r. first.0 ≤ r.0) between
    → Requested ssrc (round sent first).0
    → Requested ssrc
        (round (rounds (round sent first).1.key_frame_request_sent_by_ssrc between) last).0
    → first.0 + key_frame_request_resend_interval ≤ last.0
send_key_frame_requests-spaced sent first last between ssrc order r q =
    let after = (round sent first).1.key_frame_request_sent_by_ssrc in
    let late : Late first.0 ssrc (rounds after between) =
      rounds-Late after between first.0 ssrc order
        (first.0, round-noted sent first ssrc r, omega arith) in
    let apart = round-spaced (rounds after between) last ssrc late.0 late.1 q in
    let later = late.2 in omega arith

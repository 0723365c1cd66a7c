-- ===== src/Rtp/Nack/Invariant.antt =====
-- What receiving and asking keep of a `NackSender`: its entries are missing numbers, in order.
use signal_calling_service.Prelude.{
  ℕ, zero, suc, ◌+◌, ◌-◌, ◌^◌, ◌≤◌, ◌<◌, min, Option, none, some, List, [], ◌∷◌, ltb, ◌==◌, All,
  All-imp, All-zip, subst, sym, ltb→lt, length, ◌≡◌, ◌≢◌, arith, Bool-cases, Option-cases, inl, inr,
}
use signal_calling_service.Collections.KeySorted.{
  KeySortedCache, new_cache, insert, remove, IsSorted, IsValid, All-insert, All-remove,
  insert-IsValid, remove-IsValid, remove-absent,
}
use signal_calling_service.Rtp.Nack.{
  Sent, NackSender, insert_missing, remember_gap, remember_received, retain_nack, retained,
  retain_nacks, sent_at, send_nacks,
}

-- A number below one that was received, and not received itself.
abbrev pub IsMissing : List ℕ → Option ℕ → ℕ → Type 0
IsMissing ns none n = ⊥
IsMissing ns (some m) n = (n < m) × All (λ r. r ≢ n) ns

abbrev UpTo : List ℕ → Option ℕ → Type 0
UpTo ns none = ns ≡ []
UpTo ns (some m) = All (λ r. r ≤ m) ns

abbrev pub Inv : List ℕ → NackSender → Type 0
Inv ns s =
    UpTo ns s.max_received
    × (All (λ e. IsMissing ns s.max_received e.0) s.sent_by_seqnum.value_by_key
        × IsValid s.sent_by_seqnum)

insert_missing-All :
    (P : ℕ × Option Sent → Type 0) (start n : ℕ) (c : KeySortedCache (Option Sent))
    → ((k : ℕ) → start ≤ k → k < start + n → P (k, none))
    → All P c.value_by_key
    → All P (insert_missing start n c).value_by_key
unfolding insert_missing
insert_missing-All P start zero c new h = h
insert_missing-All P start (suc n) c new h =
    insert_missing-All P (suc start) n (insert start none c)
      (λ k lo hi. new k (omega arith) (omega arith))
      (All-insert P start none c (new start (omega arith) (omega arith)) h)

insert_missing-IsValid :
    (start n : ℕ) (c : KeySortedCache (Option Sent))
    → IsValid c
    → IsValid (insert_missing start n c)
unfolding insert_missing
insert_missing-IsValid start zero c h = h
insert_missing-IsValid start (suc n) c h =
    insert_missing-IsValid (suc start) n (insert start none c) (insert-IsValid start none c h)

gap_IsMissing :
    (ns : List ℕ) (m seqnum k : ℕ)
    → All (λ r. r ≤ m) ns
    → m < k
    → k < seqnum
    → IsMissing (seqnum ∷ ns) (some seqnum) k
gap_IsMissing ns m seqnum k upto lo hi =
    (hi, ((λ e. omega (arith, e, hi)), All-imp (λ r le e. omega (arith, e, le, lo)) ns upto))

still_IsMissing :
    (ns : List ℕ) (m seqnum k : ℕ)
    → m < seqnum
    → IsMissing ns (some m) k
    → IsMissing (seqnum ∷ ns) (some seqnum) k
still_IsMissing ns m seqnum k lt h =
    (omega (arith, lt, h.0), ((λ e. omega (arith, e, lt, h.0)), h.1))

remember_gap-Inv :
    (ns : List ℕ) (m seqnum : ℕ) (s : NackSender)
    → m < seqnum
    → seqnum < 2 ^ 64
    → Inv ns (record s { max_received = some m })
    → Inv (seqnum ∷ ns) (remember_gap m seqnum s)
unfolding remember_gap
remember_gap-Inv ns m seqnum s lt fits (upto, (missing, valid)) = (
  (omega arith, All-imp (λ r le. omega (arith, le, lt)) ns upto),
  elim (Bool-cases (ltb s.limit (seqnum - min (m + 1) (2 ^ 64 - 1)))) [
    | inl many ↦ rw many (
      insert_missing-All _ (seqnum - s.limit) s.limit (new_cache s.limit)
          (λ k lo hi.
            gap_IsMissing ns m seqnum k upto (ground (arith, lo, many, fits))
              (ground (arith, hi, many)))
          tt,
      insert_missing-IsValid _ _ _ (tt, omega arith),
    )
    | inr few ↦ rw few (
      insert_missing-All _ (min (m + 1) (2 ^ 64 - 1)) _ s.sent_by_seqnum
          (λ k lo hi.
            gap_IsMissing ns m seqnum k upto (omega (arith, lo, lt, fits))
              (omega (arith, hi, lt, fits)))
          (All-imp (λ e. still_IsMissing ns m seqnum e.0 lt) _ missing),
      insert_missing-IsValid _ _ _ valid,
    )
  ],
)

pub retain_nacks-All :
    (P : ℕ → Type 0) (now rtt : ℕ) (m : List (ℕ × Option Sent))
    → All (λ e. P e.0) m
    → All (λ e. P e.0) (retain_nacks now rtt m).1
unfolding retain_nacks
retain_nacks-All P now rtt [] h = tt
retain_nacks-All P now rtt ((seqnum, sent) ∷ m) h =
    elim (Option-cases (retain_nack now rtt sent).1) [
      | inl expired ↦ rw (expired, retained) (retain_nacks-All P now rtt m h.1)
      | inr (again, stays) ↦ rw (stays, retained) (h.0, retain_nacks-All P now rtt m h.1)
    ]

pub sent_at-All :
    (P : ℕ → Type 0) (now : ℕ) (m : List (ℕ × Option Sent))
    → All (λ e. P e.0) m
    → All P (sent_at now m)
unfolding sent_at
sent_at-All P now [] h = tt
sent_at-All P now ((seqnum, none) ∷ m) h = sent_at-All P now m h.1
sent_at-All P now ((seqnum, some sent) ∷ m) h = elim (Bool-cases (now == sent.last_sent)) [
  | inl at_now ↦ rw at_now (h.0, sent_at-All P now m h.1)
  | inr before ↦ rw before (sent_at-All P now m h.1)
]

first_received-Inv :
    (ns : List ℕ) (seqnum : ℕ) (s : NackSender)
    → Inv ns (record s { max_received = none })
    → Inv (seqnum ∷ ns) (record s { max_received = some seqnum })
first_received-Inv ns seqnum s (nobody, (none_missing, valid)) = (
  (omega arith, subst (λ rs. All (λ r. r ≤ seqnum) rs) (sym nobody) tt),
  (All-imp (λ e no. elim no [ ]) _ none_missing, valid),
)

late_received-Inv :
    (ns : List ℕ) (m seqnum : ℕ) (s : NackSender)
    → seqnum < m
    → Inv ns (record s { max_received = some m })
    → Inv
        (seqnum ∷ ns)
        (record s { max_received = some m; sent_by_seqnum = remove seqnum s.sent_by_seqnum })
late_received-Inv ns m seqnum s lt (upto, (missing, valid)) = (
  (omega (arith, lt), upto),
  (
    All-zip (λ e ne old. (old.0, (ne, old.1))) _ (remove-absent seqnum s.sent_by_seqnum valid)
        (All-remove (λ e. IsMissing ns (some m) e.0) seqnum s.sent_by_seqnum missing),
    remove-IsValid seqnum s.sent_by_seqnum valid,
  ),
)

received_again-Inv :
    (ns : List ℕ) (m seqnum : ℕ) (s : NackSender)
    → seqnum ≡ m
    → Inv ns (record s { max_received = some m })
    → Inv (seqnum ∷ ns) (record s { max_received = some m })
received_again-Inv ns m seqnum s same (upto, (missing, valid)) = (
  (omega (arith, same), upto),
  (All-imp (λ e old. (old.0, ((λ q. omega (arith, q, same, old.0)), old.1))) _ missing, valid),
)

pub remember_received-Inv :
    (ns : List ℕ) (seqnum : ℕ) (s : NackSender)
    → seqnum < 2 ^ 64
    → Inv ns s
    → Inv (seqnum ∷ ns) (remember_received seqnum s)
unfolding remember_received
remember_received-Inv ns seqnum s fits h = elim (Option-cases s.max_received) [
  | inl first ↦ rw (first, remember_received) (first_received-Inv ns seqnum s (rw first at h))
  | inr (m, before) ↦ elim (Bool-cases (seqnum == m)) [
    | inl again ↦
        rw (before, remember_received, again, before)
          (received_again-Inv ns m seqnum s (ground (arith, again)) (rw before at h))
    | inr other ↦ elim (Bool-cases (ltb seqnum m)) [
      | inl late ↦
          rw (before, remember_received, other, late, before)
            (late_received-Inv ns m seqnum s (ltb→lt seqnum m late) (rw before at h))
      | inr ahead ↦
          rw (before, remember_received, other, ahead)
            (remember_gap-Inv ns m seqnum s (ground (arith, other, ahead)) fits (rw before at h))
    ]
  ]
]

retain_nacks-IsValid :
    (now rtt : ℕ) (m : List (ℕ × Option Sent))
    → IsSorted m
    → IsSorted (retain_nacks now rtt m).1 × (length (retain_nacks now rtt m).1 ≤ length m)
unfolding retain_nacks
retain_nacks-IsValid now rtt [] h = (tt, omega arith)
retain_nacks-IsValid now rtt ((seqnum, sent) ∷ m) h =
    let rest = retain_nacks-IsValid now rtt m h.1 in
    elim (Option-cases (retain_nack now rtt sent).1) [
      | inl expired ↦ rw (expired, retained) (rest.0, omega (arith, rest.1))
      | inr (again, stays) ↦
          rw (stays, retained)
            ((retain_nacks-All (λ k. seqnum < k) now rtt m h.0, rest.0), omega (arith, rest.1))
    ]

pub send_nacks-Inv :
    (ns : List ℕ) (now rtt : ℕ) (s : NackSender) → Inv ns s → Inv ns (send_nacks now rtt s).1
unfolding send_nacks
send_nacks-Inv ns now rtt s (upto, (missing, valid)) =
    let kept = retain_nacks-IsValid now rtt s.sent_by_seqnum.value_by_key valid.0 in
    (
      upto,
      (
        retain_nacks-All (IsMissing ns s.max_received) now rtt _ missing,
        (kept.0, omega (arith, kept.1, valid.1)),
      ),
    )

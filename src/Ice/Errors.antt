-- ===== src/Ice/Errors.antt =====
-- Every error of `BindingRequest::parse` in backend/src/ice.rs names a fault that the packet has,
-- and every request it returns has its ranges in the packet.
use signal_calling_service.Prelude.{
  ℕ, ◌+◌, ◌-◌, ◌<◌, ◌≤◌, ◌≡◌, ◌≢◌, refl, ap, sym, subst, inl, inr, Option, none, some, List, length,
  ltb, if-elim, Result, ok, err, arith, ◌==◌, Bool, Option-cases, is_some, ltb→lt, ◌∙◌,
}
use signal_calling_service.Bytes.{slice, parse_u16}
use signal_calling_service.Ice.{
  Seen, ParseState, reading_attributes, expect_fingerprint, done, ParseError, BindingRequest, Range,
  stop, turn, read_attributes, parse, after_loop, finish, header_len, attr_header_len, nothing_seen,
  attr_len_at, attr_id_at,
}
use signal_calling_service.Ice.Ends.{read_attributes-stops, some-inj}
use signal_calling_service.Ice.Faults.{Reached, first, AttributeFault, OnStop, turn-OnStop}
use signal_calling_service.Ice.Bounds.{Within, RangesIn, SeenIn, turn-SeenIn}

-- The loop has come to the packet's end with what it has seen.
abbrev pub AtEnd : List ℕ → ℕ → Seen → Type 0
AtEnd packet a s = Reached packet a s × (length packet < a + attr_header_len)

abbrev pub PacketFault : List ℕ → ParseError → Type 0
PacketFault packet (ParseError.incomplete_header n) = (n ≡ length packet) × (n < header_len)
PacketFault packet (ParseError.declared_message_length_mismatch d n) =
    (d ≡ parse_u16 (slice 2 4 packet)) × (length packet ≡ header_len + n) × (d ≢ n)
PacketFault packet ParseError.missing_username_attribute =
    (a : ℕ) × (s : Seen) × AtEnd packet a s × (s.username ≡ none)
PacketFault packet ParseError.missing_hmac_attribute =
    (a : ℕ) × (s : Seen) × AtEnd packet a s × (s.username ≢ none) × (s.hmac ≡ none)
PacketFault packet ParseError.missing_fingerprint_attribute =
    (a : ℕ) × (s : Seen) × AtEnd packet a s × (s.hmac ≢ none) × (s.fingerprint ≡ none)
PacketFault packet e =
    (a : ℕ) × (s : Seen) × Reached packet a s
    × AttributeFault (length packet) a (attr_id_at packet a) (attr_len_at packet a) s.parse_mode e

-- What holds of a result of `parse`.
abbrev pub Answer : List ℕ → Result ParseError BindingRequest → Type 0
Answer packet (ok b) = (b.packet ≡ packet) × RangesIn b
Answer packet (err e) = PacketFault packet e

attribute-PacketFault :
    (packet : List ℕ) (a : ℕ) (s : Seen) (e : ParseError)
    → Reached packet a s
    → AttributeFault (length packet) a (attr_id_at packet a) (attr_len_at packet a) s.parse_mode e
    → PacketFault packet e
attribute-PacketFault packet a s (ParseError.attribute_range_past_packet_end i n) r f = (a, s, r, f)
attribute-PacketFault packet a s (ParseError.wrong_hmac_length l e) r f = (a, s, r, f)
attribute-PacketFault packet a s (ParseError.wrong_fingerprint_length l e) r f = (a, s, r, f)
attribute-PacketFault packet a s ParseError.fingerprint_before_hmac r f = (a, s, r, f)
attribute-PacketFault packet a s (ParseError.expected_fingerprint i) r f = (a, s, r, f)
attribute-PacketFault packet a s (ParseError.attribute_after_fingerprint i) r f = (a, s, r, f)
attribute-PacketFault packet a s _ r f = absurd f

seen-RangesIn :
    (packet : List ℕ) (mode : ParseState) (a : ℕ) (s : Seen) (n : Bool) {u m f : Range}
    → SeenIn (length packet) mode a s
    → s.username ≡ some u
    → s.hmac ≡ some m
    → s.fingerprint ≡ some f
    → RangesIn (record {
      packet = packet;
      is_nominated = n;
      ranges = record { username = u; hmac = m; fingerprint = f };
    })
seen-RangesIn packet reading_attributes a s n k eu em ef = absurd (ground arith)
seen-RangesIn packet expect_fingerprint a s n k eu em ef = absurd (ground arith)
seen-RangesIn packet done a s n {u} {m} {f} k eu em ef =
    let hm = some-inj (sym k.2 ∙ em) in
    let hf = some-inj (sym k.6 ∙ ef) in
    let w : Within 24 (k.0.start - attr_header_len) (some u) =
      subst (Within 24 (k.0.start - attr_header_len)) eu k.5 in
    let m_start = ap (λ r. r.start) hm in
    let m_end = ap (λ r. r.end) hm in
    let f_start = ap (λ r. r.start) hf in
    let f_end = ap (λ r. r.end) hf in
    (
      (w.0, w.1, omega (arith, w.2)),
      omega (arith, k.4),
      omega (arith, k.3),
      omega (arith, k.8),
      omega (arith, k.7),
      omega (arith, k.9),
    )

finish-Answer :
    (packet : List ℕ) (a : ℕ) (s : Seen)
    → AtEnd packet a s
    → SeenIn (length packet) s.parse_mode a s
    → Answer packet (finish packet s)
finish-Answer packet a s h k = elim (Option-cases s.username) [
  | inl u ↦ rw (u, finish) (a, s, h, u)
  | inr (u, eu) ↦ elim (Option-cases s.hmac) [
    | inl m ↦ rw (eu, m, finish) (a, s, h, (λ z. ground arith), m)
    | inr (m, em) ↦ elim (Option-cases s.fingerprint) [
      | inl f ↦ rw (eu, em, f, finish) (a, s, h, (λ z. ground arith), f)
      | inr (f, ef) ↦
          rw (eu, em, ef, finish)
            (refl, seen-RangesIn packet s.parse_mode a s (is_some s.nomination) k eu em ef)
    ]
  ]
]

stopped-Answer :
    (packet : List ℕ) (a : ℕ) (s : Seen) (r : Result ParseError Seen)
    → Reached packet a s × (20 ≤ a) × SeenIn (length packet) s.parse_mode a s
    → turn packet a s ≡ stop r
    → (q : Result ParseError BindingRequest) → after_loop packet (some r) ≡ some q
    → Answer packet q
stopped-Answer packet a s (ok v) h t q e =
    let stopped = subst (OnStop _ _) t (turn-OnStop packet a s) in
    subst (Answer packet) (some-inj e)
      (rw (stopped.0) (finish-Answer packet a s (h.0, stopped.1) h.2))
stopped-Answer packet a s (err v) h t q e =
    subst (Answer packet) (some-inj e)
      (attribute-PacketFault packet a s v h.0 (subst (OnStop _ _) t (turn-OnStop packet a s)))

after_loop-Answer :
    (packet : List ℕ) (fuel : ℕ) (q : Result ParseError BindingRequest)
    → after_loop packet (read_attributes fuel packet header_len nothing_seen) ≡ some q
    → Answer packet q
after_loop-Answer packet fuel q e =
    elim (Option-cases (read_attributes fuel packet header_len nothing_seen)) [
      | inl l ↦ absurd (ground arith)
      | inr (r, l) ↦
          let end =
            read_attributes-stops packet
              (λ a s. Reached packet a s × (20 ≤ a) × SeenIn (length packet) s.parse_mode a s)
              (λ a s n t h g.
                let w = turn-SeenIn packet a s n t (h.1, h.2) g in (Reached.next h.0 g, w.0, w.1))
              fuel header_len nothing_seen r (first, omega arith, (tt, refl, refl)) l in
          stopped-Answer packet end.0 end.1 r end.2 end.3 q (rw (l, after_loop) at e)
    ]

-- When parse returns a request, it holds the packet, and its username, hmac (20 bytes) and
-- fingerprint (4 bytes) lie in this order in the packet's body, each attribute's header before its
-- value; when it returns an error, the packet has the fault that the error names: a header cut
-- short, another length than declared, an attribute that runs past the end by the given count, that
-- has the wrong length or that is out of order, or, at the packet's end, an attribute not seen.
pub parse-Answer :
    (packet : List ℕ) (q : Result ParseError BindingRequest)
    → parse packet ≡ some q
    → Answer packet q
unfolding parse
parse-Answer packet q e =
    let Q : Option (Result ParseError BindingRequest) → Type 0 =
      λ o. o ≡ some q → Answer packet q in
    if-elim Q (ltb (length packet) header_len)
      (λ t f. subst (Answer packet) (some-inj f) (refl, ltb→lt _ _ t))
      (λ long.
        if-elim Q (parse_u16 (slice 2 4 packet) == length packet - header_len)
          (λ _ f. after_loop-Answer packet (length packet) q f)
          (λ d f. subst (Answer packet) (some-inj f) (refl, ground arith, ground arith)))
      e

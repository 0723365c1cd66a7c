-- ===== src/Rtp/Rtx/Resend.antt =====
-- A packet is not sent again while it waits to be sent again.
use signal_calling_service.Prelude.{
  ℕ, true, Option, none, some, is_some, List, [], ◌∷◌, ◌≡◌, ◌⊎◌, refl, arith, inl, inr, Bool-cases,
  Option-cases, ◌∙◌,
}
use signal_calling_service.Collections.TwoGeneration as TwoGeneration
use signal_calling_service.Collections.TwoGeneration.{
  TwoGenerationCache, map_get, map_update, or_else,
}
use signal_calling_service.Rtp.Packet.{
  Packet, is_past_deadline, to_rtx_ssrc, to_rtx, is_rtx, set_tcc_seqnum_in_header_if_present,
}
use signal_calling_service.Rtp.Rtx.{
  Key, same_key, RtxSender, increment_seqnum, set_next_seqnum, next_seqnum, resend, resend_as_rtx,
  set_pending,
}

abbrev on_some : (Packet → Packet) → Option Packet → Option Packet
on_some f none = none
on_some f (some p) = some (f p)

map_get-update :
    (f : Packet → Packet) (k : Key) (m : List (Key × Packet))
    → map_get same_key k (map_update same_key f k m) ≡ on_some f (map_get same_key k m)
map_get-update f k [] = refl
map_get-update f k ((j, p) ∷ m) = elim (Bool-cases (same_key j k)) [
  | inl hit ↦ rw hit (rw hit)
  | inr miss ↦ rw miss (rw miss (map_get-update f k m))
]

get-get_mut :
    (f : Packet → Packet) (k : Key) (c : TwoGenerationCache Key Packet)
    → TwoGeneration.get same_key k (TwoGeneration.get_mut same_key f k c)
      ≡ on_some f (TwoGeneration.get same_key k c)
unfolding TwoGeneration.get TwoGeneration.get_mut
get-get_mut f k c = elim (Option-cases (map_get same_key k c.generation0)) [
  | inl older ↦ rw (older, older) (map_get-update f k c.generation1)
  | inr (p, newer) ↦ rw newer (rw (map_get-update f k c.generation0, newer))
]

to_rtx-number : (n : ℕ) (p : Packet) → (to_rtx n p).seqnum_in_header ≡ n
unfolding to_rtx
to_rtx-number n p = elim (Bool-cases (is_rtx p)) [ inl rtx ↦ rw rtx | inr plain ↦ rw plain ]

set_tcc-number :
    (tcc : ℕ) (p : Packet)
    → (set_tcc_seqnum_in_header_if_present tcc p).1.seqnum_in_header ≡ p.seqnum_in_header
unfolding set_tcc_seqnum_in_header_if_present
set_tcc-number tcc p = elim (Option-cases p.tcc_seqnum_range) [
  | inl absent ↦ rw (absent, set_tcc_seqnum_in_header_if_present)
  | inr (range, present) ↦ rw (present, set_tcc_seqnum_in_header_if_present)
]

-- What `resend` does: nothing, or a packet under the next number of the stream, after which the
-- remembered packet is pending.
pub resend-cases :
    (o : Option Packet) (key : Key) (now tcc : ℕ) (s : RtxSender)
    → (((resend o key now tcc s).0 ≡ none) × ((resend o key now tcc s).2 ≡ s))
      ⊎ ((p : Packet) × ((resend o key now tcc s).0 ≡ some p)
          × (p.seqnum_in_header ≡ next_seqnum (to_rtx_ssrc key.0) s)
          × ((resend o key now tcc s).2
              ≡ (increment_seqnum (to_rtx_ssrc key.0) (record s {
                previously_sent_by_seqnum =
                    TwoGeneration.get_mut same_key
                      (set_pending true)
                      key
                      s.previously_sent_by_seqnum;
              })).1))
unfolding resend is_past_deadline next_seqnum increment_seqnum
resend-cases none key now tcc s = inl (refl, refl)
resend-cases (some p) key now tcc s = elim (Bool-cases p.pending_retransmission) [
  | inl pending ↦ rw pending (inl (refl, refl))
  | inr idle ↦ elim (Bool-cases (is_past_deadline now p)) [
    | inl late ↦ rw (idle, late) (inl (refl, refl))
    | inr live ↦
        rw (idle, live) (inr (_, refl, set_tcc-number tcc (to_rtx _ _) ∙ to_rtx-number _ _, refl))
  ]
]

-- While the remembered packet is pending, nothing is sent.
resend-pending :
    (o : Option Packet) (key : Key) (now tcc : ℕ) (s : RtxSender)
    → (resend (on_some (set_pending true) o) key now tcc s).0 ≡ none
unfolding resend
resend-pending none key now tcc s = refl
resend-pending (some p) key now tcc s = refl

-- Right after a packet was sent again, asking for it again, at any time, sends nothing.
pub resend_as_rtx-twice :
    (u q now again tcc tcc' : ℕ) (s : RtxSender)
    → is_some (resend_as_rtx u q now tcc s).0 ≡ true
    → (resend_as_rtx u q again tcc' (resend_as_rtx u q now tcc s).2).0 ≡ none
unfolding resend_as_rtx increment_seqnum set_next_seqnum
resend_as_rtx-twice u q now again tcc tcc' s sent =
    elim (resend-cases (TwoGeneration.get same_key (u, q) s.previously_sent_by_seqnum) (u, q) now
      tcc (set_next_seqnum (to_rtx_ssrc u) (next_seqnum (to_rtx_ssrc u) s) s)) [
        | inl (nothing, same) ↦ ground (arith, rw nothing at sent)
        | inr (p, out, number, after) ↦
            rw (after, get-get_mut (set_pending true) (u, q) s.previously_sent_by_seqnum)
              (resend-pending _ (u, q) again tcc' _)
      ]

-- ===== src/Rtcp/Nacks/RoundTrip.antt =====
-- `parse_nack` reads what `write_nack` wrote, of backend/src/rtp/nack.rs.
use mathlib.Core.List.{map-append, append_assoc}
use signal_calling_service.Prelude.{
  ℕ, suc, ◌+◌, ◌-◌, ◌*◌, ◌/◌, ◌%◌, ◌^◌, ◌<◌, ◌≤◌, ◌≡◌, refl, ap, ap₂, subst, ◌∙◌, inl, inr, ◌&&◌,
  leb, Bool-cases, List, [], ◌∷◌, ◌++◌, map, arith, some,
}
use signal_calling_service.Bytes.{parse_u32-be32}
use signal_calling_service.Serialize.{to_vec}
use signal_calling_service.Rtcp.Compound.{parse_nack, read_entries, entry_seqnums}
use signal_calling_service.Rtcp.Nacks.{set_ls_bit, nack_items, write_items, items_of, write_nack}
use signal_calling_service.Rtcp.Nacks.Bits.{places, places-set_ls_bit, set_ls_bit-<, lt-pow}

-- Sequence numbers above the last one, in ascending order.
abbrev pub Above : ℕ → List ℕ → Type 0
Above last [] = Unit
Above last (s ∷ ss) = (last < s) × Above s ss

abbrev pub Ascending : List ℕ → Type 0
Ascending [] = Unit
Ascending (s ∷ ss) = Above s ss

-- A full sequence number as 16 bits.
abbrev pub truncated : ℕ → ℕ
truncated seqnum = seqnum % 2 ^ 16

read_back : (a : ℕ) → a < 65536 → a / 256 % 256 * 256 + a % 256 ≡ a
read_back a h = omega arith

read_entries-item :
    (first mask : ℕ) (items : List (ℕ × ℕ)) (s : List ℕ)
    → first < 65536
    → mask < 65536
    → read_entries (to_vec (write_items items)) ≡ some s
    → read_entries (to_vec (write_items ((first, mask) ∷ items)))
      ≡ some (entry_seqnums first mask ++ s)
read_entries-item first mask items s f m r =
    rw r (ap₂ (λ a b. some (entry_seqnums a b ++ s)) (read_back first f) (read_back mask m))

-- A bit that is set after the others adds its number at the end of the entry.
entry_seqnums-set_ls_bit :
    (first mask i : ℕ)
    → mask < 2 ^ i
    → i < 16
    → entry_seqnums first (set_ls_bit mask i)
      ≡ entry_seqnums first mask ++ (((first + (i + 1)) % 2 ^ 16) ∷ [])
entry_seqnums-set_ls_bit first mask i h l =
    let number : ℕ → ℕ = λ j. (first + (j + 1)) % 2 ^ 16 in
    ap (λ p. first ∷ map number p) (places-set_ls_bit mask i h l)
    ∙ ap (λ r. first ∷ r) (map-append number (places mask) (i ∷ []))

offset : (first s : ℕ) → first < s → (first % 65536 + (s - first - 1 + 1)) % 65536 ≡ s % 65536
offset first s h = omega arith

-- The items that the loop writes are read as the number it started from, the numbers of the bits
-- that were set before, and the numbers that were left.
read_entries-nack_items :
    (first mask k : ℕ) (ss : List ℕ)
    → mask < 2 ^ k
    → k ≤ 16
    → Above (first + k) ss
    → read_entries (to_vec (write_items (nack_items first mask ss)))
      ≡ some (entry_seqnums (truncated first) mask ++ map truncated ss)
read_entries-nack_items first mask k [] h l a =
    read_entries-item (truncated first) mask [] [] (omega arith) (lt-pow mask k 16 h l) refl
read_entries-nack_items first mask k (s ∷ ss) h l a =
    let i = s - first - 1 in
    elim (Bool-cases (leb 1 (s - first) && leb (s - first) 16)) [
      | inl t ↦
          let i_lt : i < 16 = ground arith in
          let bit_set : mask < 2 ^ i = lt-pow mask k i h (omega (arith, a.0)) in
          rw t (
            read_entries-nack_items first (set_ls_bit mask i) (suc i) ss
              (set_ls_bit-< mask i bit_set) i_lt
              (subst (λ n. Above n ss) {x = s} {y = first + suc i} (omega (arith, a.0)) a.1)
            ∙ ap (λ e. some (e ++ map truncated ss))
                (entry_seqnums-set_ls_bit (truncated first) mask i bit_set i_lt)
            ∙ ap some (append_assoc (entry_seqnums (truncated first) mask) _ (map truncated ss))
            ∙ ap (λ n. some (entry_seqnums (truncated first) mask ++ (n ∷ map truncated ss)))
                (offset first s (omega (arith, a.0))))
      | inr f ↦ rw f (
          read_entries-item (truncated first) mask (nack_items s 0 ss) (map truncated (s ∷ ss))
            (omega arith) (lt-pow mask k 16 h l)
            (read_entries-nack_items s 0 0 ss (omega arith) (omega arith)
              (subst (λ n. Above n ss) {x = s} {y = s + 0} (omega arith) a.1)))
    ]

read_entries-items_of :
    (seqnums : List ℕ)
    → Ascending seqnums
    → read_entries (to_vec (write_items (items_of seqnums))) ≡ some (map truncated seqnums)
read_entries-items_of [] h = refl
read_entries-items_of (s ∷ ss) h =
    read_entries-nack_items s 0 0 ss (omega arith) (omega arith)
      (subst (λ n. Above n ss) {x = s} {y = s + 0} (omega arith) h)

-- A nack with a 32-bit SSRC and ascending sequence numbers, however far apart, is read back from
-- what is written as that SSRC with the low 16 bits of the numbers, in the same order.
pub parse_nack-write_nack :
    (ssrc : ℕ) (seqnums : List ℕ)
    → ssrc < 4294967296
    → Ascending seqnums
    → parse_nack (to_vec (write_nack ssrc seqnums))
      ≡ some (record { ssrc = ssrc; seqnums = map truncated seqnums })
parse_nack-write_nack ssrc seqnums h a =
    rw (read_entries-items_of seqnums a, parse_nack)
      (ap (λ i. some (record { ssrc = i; seqnums = map truncated seqnums }))
        (parse_u32-be32 ssrc [] h))

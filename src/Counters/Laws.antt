-- ===== src/Counters/Laws.antt =====
-- What `expand_truncated_counter` recovers, at the widths that the program uses.
use signal_calling_service.Prelude.{ℕ, ◌+◌, ◌-◌, ◌%◌, ◌^◌, ◌<◌, ◌≡◌, arith, max, u64_mod}
use signal_calling_service.Counters.{expand_truncated_counter}

-- Widths of `expand_tl0_pic_idx`, `expand_picture_id`, `expand_seqnum`, `expand_frame_number`
-- (16 bits both) and `expand_timestamp`.
pub data Width : Type 0 where
  tl0_pic_idx_width picture_id_width seqnum_width timestamp_width : Width

abbrev pub bits : Width → ℕ
bits tl0_pic_idx_width = 8
bits picture_id_width = 15
bits seqnum_width = 16
bits timestamp_width = 32

-- At each width that the program uses, a 64-bit counter which is less than half a cycle away from
-- the maximum, on either side, is recovered from its low bits, and the maximum becomes the larger
-- of the two.
pub expand_truncated_counter-truncated :
    (w : Width) (full m : ℕ)
    → full < u64_mod
    → m < full + 2 ^ (bits w - 1)
    → full < m + 2 ^ (bits w - 1)
    → expand_truncated_counter (full % 2 ^ bits w) m (bits w) ≡ (full, max m full)
unfolding expand_truncated_counter
expand_truncated_counter-truncated tl0_pic_idx_width full m h lo hi = ground arith
expand_truncated_counter-truncated picture_id_width full m h lo hi = ground arith
expand_truncated_counter-truncated seqnum_width full m h lo hi = ground arith
expand_truncated_counter-truncated timestamp_width full m h lo hi = ground arith

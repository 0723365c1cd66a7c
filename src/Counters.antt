-- ===== src/Counters.antt =====
-- common/src/counters.rs: expanding a truncated counter by the largest value seen.
pub mod Laws
use signal_calling_service.Prelude.{
  ℕ, ◌+◌, ◌-◌, ◌*◌, ◌/◌, ◌%◌, ◌^◌, Bool, ◌&&◌, ltb, if◌then◌else◌, max, u64_mod,
}

-- The rollover counter that the branches choose: `truncated_max` is the low part of the maximum,
-- `max_roc` its high part. The counter is at most `2 ^ (64 - width)`, so `+ 1` cannot wrap.
abbrev pub choose_roc : ℕ → ℕ → ℕ → ℕ → ℕ
choose_roc really_big truncated truncated_max max_roc =
    if ltb truncated truncated_max && ltb really_big (truncated_max - truncated)
    then max_roc + 1
    else if ltb 0 max_roc
        && (ltb truncated_max truncated && ltb really_big (truncated - truncated_max))
    then max_roc - 1
    else max_roc

-- `expand_truncated_counter`, with the new maximum beside the result. `<< width` drops what
-- leaves the 64 bits, and the two halves that `|` joins share no bit, so `|` is a sum.
unfoldable pub expand_truncated_counter : ℕ → ℕ → ℕ → ℕ × ℕ
expand_truncated_counter truncated m width =
    let roc = choose_roc (2 ^ (width - 1)) truncated (m % 2 ^ width) (m / 2 ^ width) in
    let full = (roc * 2 ^ width) % u64_mod + truncated % 2 ^ width in (full, max m full)

-- ===== src/Rtcp/Nacks.antt =====
-- `write_nack` of backend/src/rtp/nack.rs: the payload of a packet that asks for the missing
-- sequence numbers again.
pub mod Bits
pub mod RoundTrip
use signal_calling_service.Prelude.{ℕ, ◌+◌, ◌-◌, ◌%◌, ◌^◌, ◌&&◌, leb, if◌then◌else◌, List, [], ◌∷◌}
use signal_calling_service.Serialize.{Writer, empty, u16, u32, both}
use signal_calling_service.Rtcp.Compound.{ls_bit}

-- `mask.set_ls_bit(index)`: the bitwise or with one bit.
abbrev pub set_ls_bit : ℕ → ℕ → ℕ
set_ls_bit mask index = if ls_bit mask index then mask else mask + 2 ^ index

-- The loop of `write_nack` with the first number of the item that is being filled and its mask.
abbrev pub nack_items : ℕ → ℕ → List ℕ → List (ℕ × ℕ)
nack_items first_seqnum mask [] = (first_seqnum % 2 ^ 16, mask) ∷ []
nack_items first_seqnum mask (seqnum ∷ seqnums) =
    let diff = seqnum - first_seqnum in
    let fits = leb 1 diff && leb diff 16 in
    let items =
      nack_items (if fits then first_seqnum else seqnum)
        (if fits then set_ls_bit mask (diff - 1) else 0) seqnums in
    if fits then items else (first_seqnum % 2 ^ 16, mask) ∷ items

-- The list of items as a writer.
abbrev pub write_items : List (ℕ × ℕ) → Writer
write_items [] = empty
write_items (item ∷ items) = both (both (u16 item.0) (u16 item.1)) (write_items items)

abbrev pub items_of : List ℕ → List (ℕ × ℕ)
items_of [] = []
items_of (first_seqnum ∷ seqnums) = nack_items first_seqnum 0 seqnums

abbrev pub write_nack : ℕ → List ℕ → Writer
write_nack ssrc seqnums = both (u32 ssrc) (write_items (items_of seqnums))

-- ===== src/Serialize.antt =====
-- `Writer` of common/src/serialize.rs: what can be written into a packet, how many bytes it says
-- it takes, and the bytes it writes.
use signal_calling_service.Prelude.{
  ℕ, ◌+◌, ◌≡◌, refl, ap₂, ◌∙◌, Option, none, some, List, [], ◌∷◌, ◌++◌, length, length-append,
}
use signal_calling_service.Bytes.{be16, be24, be32, be48, be64}

-- The implementations of the trait: `Empty`, byte strings, the integers, and tuples and lists,
-- which write their parts in order.
pub data Writer : Type 0 where
  empty : Writer
  bytes : List ℕ → Writer
  u16 u24 u32 u48 u64 : ℕ → Writer
  both : Writer → Writer → Writer

abbrev pub written_len : Writer → ℕ
written_len empty = 0
written_len (bytes b) = length b
written_len (u16 n) = 2
written_len (u24 n) = 3
written_len (u32 n) = 4
written_len (u48 n) = 6
written_len (u64 n) = 8
written_len (both w v) = written_len w + written_len v

-- `to_vec`: what `write` leaves in an empty vector.
abbrev pub to_vec : Writer → List ℕ
to_vec empty = []
to_vec (bytes b) = b
to_vec (u16 n) = be16 n
to_vec (u24 n) = be24 n
to_vec (u32 n) = be32 n
to_vec (u48 n) = be48 n
to_vec (u64 n) = be64 n
to_vec (both w v) = to_vec w ++ to_vec v

-- A tuple or a slice of writers.
abbrev pub tuple : List Writer → Writer
tuple [] = empty
tuple (w ∷ ws) = both w (tuple ws)

-- `Option` of a writer.
abbrev pub optional : Option Writer → Writer
optional none = empty
optional (some w) = w

-- Every writer writes exactly as many bytes as it says.
pub length-to_vec : (w : Writer) → length (to_vec w) ≡ written_len w
length-to_vec empty = refl
length-to_vec (bytes b) = refl
length-to_vec (u16 n) = refl
length-to_vec (u24 n) = refl
length-to_vec (u32 n) = refl
length-to_vec (u48 n) = refl
length-to_vec (u64 n) = refl
length-to_vec (both w v) =
    length-append (to_vec w) (to_vec v) ∙ ap₂ (◌+◌) (length-to_vec w) (length-to_vec v)

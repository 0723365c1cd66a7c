-- ===== src/Vp8/Modified.antt =====
-- Reading a VP8 payload header of backend/src/vp8.rs after its numbers were rewritten.
use signal_calling_service.Prelude.{
  ℕ, ◌≡◌, Bool, true, ◌||◌, Option, none, List, ◌∷◌, Result, ok, err,
}
use signal_calling_service.Vp8.{ParsedHeader, ms_bit, skip_tk_byte, Vp8Error, Read}

-- What a read that succeeded left.
rest_of : {A : Type 0} → List ℕ → Read A → List ℕ
rest_of d (ok r) = r.1
rest_of d (err x) = d

header_of : ParsedHeader → Result Vp8Error ParsedHeader → ParsedHeader
header_of d (ok h) = h
header_of d (err x) = d

ids_of : (Option ℕ × Option ℕ) → Read (Option ℕ × Option ℕ) → Option ℕ × Option ℕ
ids_of d (ok r) = r.0
ids_of d (err x) = d

id_of : Read (Option ℕ) → Option ℕ
id_of (ok r) = r.0
id_of (err x) = none

-- The bytes of extensions with both numbers, and what follows them.
record Extensions (flag : Bool) (s left : List ℕ) : Type 0 where
  x : ℕ
  c : ℕ
  d : ℕ
  e : ℕ
  rest : List ℕ
  bytes : s ≡ x ∷ c ∷ d ∷ e ∷ rest
  extended : flag ≡ true
  with_picture_id : ms_bit x 0 ≡ true
  with_tl0_pic_idx : ms_bit x 1 ≡ true
  skipped : skip_tk_byte (ms_bit x 2 || ms_bit x 3) rest ≡ ok (tt, left)

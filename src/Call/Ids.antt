-- ===== src/Call/Ids.antt =====
-- `Vp8RewrittenIds` of backend/src/call.rs: the numbers that are rewritten when video is forwarded.
use signal_calling_service.Prelude.{ℕ, Option, none, some, max, ◌>>=◌, checked_sub, checked_add}

pub record Vp8RewrittenIds : Type 0 where
  pub seqnum : ℕ
  pub timestamp : ℕ
  pub picture_id : Option ℕ
  pub tl0_pic_idx : Option ℕ
  pub frame_number : Option ℕ

-- `Vp8RewrittenIds::default`.
abbrev pub default_ids : Vp8RewrittenIds
default_ids = record {
  seqnum = 0;
  timestamp = 0;
  picture_id = some 0;
  tl0_pic_idx = some 0;
  frame_number = some 1;
}

-- An optional field: the operation where both sides have it (with `?` on its failure), else none.
abbrev pub both : (ℕ → ℕ → Option ℕ) → Option ℕ → Option ℕ → Option (Option ℕ)
both op none none = some none
both op none (some b) = some none
both op (some a) none = some none
both op (some a) (some b) = op a b >>= λ c. some (some c)

abbrev zip_ids : (ℕ → ℕ → Option ℕ) → Vp8RewrittenIds → Vp8RewrittenIds → Option Vp8RewrittenIds
zip_ids op a b = do
  picture_id ← both op a.picture_id b.picture_id
  tl0_pic_idx ← both op a.tl0_pic_idx b.tl0_pic_idx
  frame_number ← both op a.frame_number b.frame_number
  seqnum ← op a.seqnum b.seqnum
  timestamp ← op a.timestamp b.timestamp
  some (record {
    seqnum = seqnum;
    timestamp = timestamp;
    picture_id = picture_id;
    tl0_pic_idx = tl0_pic_idx;
    frame_number = frame_number;
  })

unfoldable pub ids_checked_sub : Vp8RewrittenIds → Vp8RewrittenIds → Option Vp8RewrittenIds
ids_checked_sub a b = zip_ids checked_sub a b

unfoldable pub ids_checked_add : Vp8RewrittenIds → Vp8RewrittenIds → Option Vp8RewrittenIds
ids_checked_add a b = zip_ids checked_add a b

-- `max` of two options: `None` is below every `Some`.
abbrev pub max_opt : Option ℕ → Option ℕ → Option ℕ
max_opt none o = o
max_opt (some a) none = some a
max_opt (some a) (some b) = some (max a b)

unfoldable pub ids_max : Vp8RewrittenIds → Vp8RewrittenIds → Vp8RewrittenIds
ids_max a b = record {
  seqnum = max a.seqnum b.seqnum;
  timestamp = max a.timestamp b.timestamp;
  picture_id = max_opt a.picture_id b.picture_id;
  tl0_pic_idx = max_opt a.tl0_pic_idx b.tl0_pic_idx;
  frame_number = max_opt a.frame_number b.frame_number;
}

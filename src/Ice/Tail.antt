-- ===== src/Ice/Tail.antt =====
-- The end of a binding request of backend/src/ice.rs, its hmac and its fingerprint, as the parser
-- reads it.
use signal_calling_service.Prelude.{
  ℕ, suc, ◌+◌, ◌%◌, ◌≡◌, refl, sym, ap, ◌∙◌, some, List, [], ◌++◌, length, drop, ok, arith,
}
use signal_calling_service.Bytes.{round_up_to_multiple_of, append_nil}
use signal_calling_service.Ice.{
  Seen, reading_attributes, expect_fingerprint, done, go, turn, read_attribute, read_attributes,
  attr_range, attr_message_integrity, attr_fingerprint,
}
use signal_calling_service.Ice.Layout.{attr_header}
use signal_calling_service.Ice.Walk.{
  fits, attribute-go, next-attribute, read_attributes-go, read_attributes-end, range_len-attr_range,
}

read-hmac :
    (a : ℕ) (seen : Seen)
    → read_attribute reading_attributes attr_message_integrity 20 (attr_range a 20) seen
      ≡ ok (record seen { hmac = some (attr_range a 20); parse_mode = expect_fingerprint })
read-hmac a seen = rw (range_len-attr_range a 20) refl

read-fingerprint :
    (a : ℕ) (seen : Seen)
    → read_attribute expect_fingerprint attr_fingerprint 4 (attr_range a 4) seen
      ≡ ok (record seen { fingerprint = some (attr_range a 4); parse_mode = done })
read-fingerprint a seen = rw (range_len-attr_range a 4) refl

-- What has been seen when a hmac's attribute stands at `a` and a fingerprint's behind it.
abbrev pub seen_all : ℕ → Seen → Seen
seen_all a seen = record seen {
  hmac = some (attr_range a 20);
  fingerprint = some (attr_range (a + 24) 4);
  parse_mode = done;
}

-- The loop reads a hmac and a fingerprint at the end of the packet.
module _ (packet : List ℕ) (a : ℕ) (h f : List ℕ) (seen : Seen)
    (at_a : drop a packet
      ≡ attr_header attr_message_integrity 20 ++ (h ++ (attr_header attr_fingerprint 4 ++ f)))
    (hmac_size : length h ≡ 20) (fingerprint_size : length f ≡ 4) (aligned : a % 4 ≡ 0)
    (mode : seen.parse_mode ≡ reading_attributes) where
  abbrev seen_hmac : Seen
  seen_hmac = record seen { hmac = some (attr_range a 20); parse_mode = expect_fingerprint }

  turn-hmac : turn packet a seen ≡ go (a + 24) seen_hmac
  turn-hmac =
      attribute-go packet a attr_message_integrity 20 h [] (attr_header attr_fingerprint 4 ++ f)
        at_a (omega arith) (omega arith) refl hmac_size aligned reading_attributes seen mode
        (omega arith) (read-hmac a seen)

  next_at : drop (a + 24) packet ≡ attr_header attr_fingerprint 4 ++ (f ++ [])
  next_at =
      ap (λ n. drop n packet) {x = a + 24} {y = round_up_to_multiple_of 4 (a + 4 + 20)}
        (omega arith)
      ∙ next-attribute packet a attr_message_integrity 20 h [] (attr_header attr_fingerprint 4 ++ f)
          at_a (omega arith) (omega arith) refl hmac_size aligned
      ∙ ap (◌++◌ (attr_header attr_fingerprint 4)) (sym (append_nil f))

  turn-fingerprint : turn packet (a + 24) seen_hmac ≡ go (a + 32) (seen_all a seen)
  turn-fingerprint =
      attribute-go packet (a + 24) attr_fingerprint 4 f [] [] next_at (omega arith) (omega arith)
        refl fingerprint_size (omega (arith, aligned)) expect_fingerprint seen_hmac refl
        (omega arith) (read-fingerprint (a + 24) seen_hmac)

  pub read-tail :
      (fuel : ℕ)
      → read_attributes (suc (suc (suc fuel))) packet a seen ≡ some (ok (seen_all a seen))
  read-tail fuel =
      read_attributes-go (suc (suc fuel)) packet a seen turn-hmac
      ∙ read_attributes-go (suc fuel) packet (a + 24) seen_hmac turn-fingerprint
      ∙ read_attributes-end fuel packet (a + 32) (seen_all a seen) (
          omega (
            arith,
            fits packet (a + 24) attr_fingerprint 4 f [] [] next_at (omega arith) (omega arith) refl
                fingerprint_size (omega (arith, aligned)),
          ))

-- ===== src/Ice/Layout.antt =====
-- The bytes of the packets that `create_packet` of backend/src/ice.rs makes.
use signal_calling_service.Prelude.{
  ℕ, ◌+◌, ◌%◌, ◌^◌, ◌≡◌, refl, sym, ap, ap₂, ◌∙◌, Bool, if◌then◌else◌, none, some, List, [], ◌∷◌,
  ◌++◌, length, length-append, take, arith,
}
use signal_calling_service.Bytes.{
  be16, overwrite, repeat, append_assoc, overwrite-append, take-append, append_nil,
}
use signal_calling_service.Serialize.{
  Writer, empty, bytes, optional, both, to_vec, written_len, length-to_vec,
}
use signal_calling_service.Ice.{
  hmac_len, attr_username, attr_nomination, attr_message_integrity, attr_fingerprint,
}
use signal_calling_service.Ice.Packet.{
  seal, write_stun_attribute, fingerprint_of, create_packet, write_len_in_header,
}

-- The attributes that the hmac covers.
abbrev pub hmaced : List ℕ → Bool → Writer
hmaced username nominated =
    both (write_stun_attribute attr_username (bytes username))
      (optional (if nominated then some (write_stun_attribute attr_nomination empty) else none))

abbrev pub attr_header : ℕ → ℕ → List ℕ
attr_header id len = be16 id ++ be16 len

-- The header, with the length it declares, then the rest.
abbrev pub headed : ℕ → ℕ → List ℕ → ℕ → List ℕ → List ℕ
headed a b transaction_id len rest = a ∷ b ∷ (be16 (len % 2 ^ 16) ++ (transaction_id ++ rest))

module _ (mac : List ℕ → List ℕ → List ℕ) (crc : List ℕ → ℕ) (a b : ℕ)
    (transaction_id pwd body : List ℕ) where
  -- The packet up to the value of the hmac, and up to that of the fingerprint.
  abbrev pub hmac_value : List ℕ
  hmac_value = mac pwd (headed a b transaction_id (length body + 24) body)

  abbrev pub fingerprint_value : List ℕ
  fingerprint_value = fingerprint_of mac crc (
      headed a b transaction_id (length body + 32)
        (body ++ (attr_header attr_message_integrity 20 ++ hmac_value)))

  abbrev pub laid_out : List ℕ
  laid_out = headed a b transaction_id (length body + 32) (
      body
      ++ (attr_header attr_message_integrity 20
          ++ (hmac_value ++ (attr_header attr_fingerprint 4 ++ fingerprint_value))))

-- `take` of a header and a body, and writing over the part behind them.
take-headed :
    (n a b x y : ℕ) (tid body rest : List ℕ)
    → length tid ≡ 16
    → n ≡ 20 + length body
    → take n (a ∷ b ∷ x ∷ y ∷ (tid ++ (body ++ rest))) ≡ a ∷ b ∷ x ∷ y ∷ (tid ++ body)
take-headed n a b x y tid body rest ht hn =
    ap (λ t. take n (a ∷ b ∷ x ∷ y ∷ t)) (sym (append_assoc tid body rest))
    ∙ take-append n (a ∷ b ∷ x ∷ y ∷ (tid ++ body)) rest (omega (arith, length-append tid body))

overwrite-headed :
    (n a b x y : ℕ) (tid body head old rest v : List ℕ)
    → length tid ≡ 16
    → n ≡ 20 + length body + length head
    → length old ≡ length v
    → overwrite n v (a ∷ b ∷ x ∷ y ∷ (tid ++ (body ++ (head ++ (old ++ rest)))))
      ≡ a ∷ b ∷ x ∷ y ∷ (tid ++ (body ++ (head ++ (v ++ rest))))
overwrite-headed n a b x y tid body head old rest v ht hn hv =
    ap (λ t. overwrite n v (a ∷ b ∷ x ∷ y ∷ t)) (regroup (old ++ rest))
    ∙ overwrite-append n (a ∷ b ∷ x ∷ y ∷ (tid ++ (body ++ head))) old rest v
        (omega (arith, length-append tid (body ++ head), length-append body head)) hv
    ∙ ap (λ t. a ∷ b ∷ x ∷ y ∷ t) (sym (regroup (v ++ rest)))
  where
    regroup : (r : List ℕ) → tid ++ (body ++ (head ++ r)) ≡ (tid ++ (body ++ head)) ++ r
    regroup r =
        ap (◌++◌ tid) (sym (append_assoc body head r)) ∙ sym (append_assoc tid (body ++ head) r)

seal-laid_out :
    (mac : List ℕ → List ℕ → List ℕ) (crc : List ℕ → ℕ) (a b x y : ℕ) (tid pwd body : List ℕ)
    (hl k f l : ℕ)
    → length tid ≡ 16
    → ((key message : List ℕ) → length (mac key message) ≡ hmac_len)
    → hl ≡ 20
    → k ≡ length body
    → f ≡ length body + 24
    → l ≡ length body + 32
    → seal mac crc pwd hl k f l (
        a
        ∷ b
        ∷ x
        ∷ y
        ∷ (tid
            ++ (body
                ++ (attr_header attr_message_integrity 20
                    ++ (repeat 20 0 ++ (attr_header attr_fingerprint 4 ++ repeat 4 0))))))
      ≡ laid_out mac crc a b tid pwd body
unfolding seal
seal-laid_out mac crc a b x y tid pwd body hl k f l ht hm h1 h2 h3 h4 =
    rw (h1, h2, h3, h4)
      (ap (λ v. sealed (write v)) (ap (mac pwd) (take-headed _ a b _ _ tid body _ ht refl))
        ∙ ap sealed (
            overwrite-headed (20 + length body + 4) a b _ _ tid body mi (repeat 20 0)
              (fp ++ repeat 4 0) hv ht refl (sym (hm pwd _)))
        ∙ ap (λ v. overwrite (20 + (length body + 24) + 4) v (whole (repeat 4 0)))
            (ap (fingerprint_of mac crc) (
              ap (λ t. take (20 + (length body + 24)) (headed a b tid (length body + 32) t)) regroup
              ∙ take-headed _ a b _ _ tid (body ++ (mi ++ hv)) _ ht sizes))
        ∙ ap
            (λ t.
              overwrite (20 + (length body + 24) + 4) fv
                (headed a b tid (length body + 32) (body ++ (mi ++ t))))
            (sym (append_assoc hv fp (repeat 4 0)))
        ∙ overwrite-headed (20 + (length body + 24) + 4) a b _ _ tid body (mi ++ (hv ++ fp))
            (repeat 4 0) [] fv ht
            (omega (arith, length-append hv fp, hm pwd (headed a b tid (length body + 24) body)))
            refl
        ∙ ap (λ t. headed a b tid (length body + 32) (body ++ (mi ++ t))) (append_assoc hv fp fv))
  where
    mi : List ℕ
    mi = attr_header attr_message_integrity 20

    fp : List ℕ
    fp = attr_header attr_fingerprint 4

    hv : List ℕ
    hv = hmac_value mac crc a b tid pwd body

    fv : List ℕ
    fv = fingerprint_value mac crc a b tid pwd body

    whole : List ℕ → List ℕ
    whole v = headed a b tid (length body + 32) (body ++ (mi ++ (hv ++ (fp ++ v))))

    write : List ℕ → List ℕ
    write v =
        overwrite (20 + length body + 4) v
          (headed a b tid (length body + 24) (body ++ (mi ++ (repeat 20 0 ++ (fp ++ repeat 4 0)))))

    sealed : List ℕ → List ℕ
    sealed p =
        overwrite (20 + (length body + 24) + 4)
          (fingerprint_of mac crc
            (take (20 + (length body + 24)) (write_len_in_header (length body + 32) p)))
          (write_len_in_header (length body + 32) p)

    regroup :
        body ++ (mi ++ (hv ++ (fp ++ repeat 4 0))) ≡ (body ++ (mi ++ hv)) ++ (fp ++ repeat 4 0)
    regroup = sym (append_assoc body (mi ++ hv) (fp ++ repeat 4 0))

    sizes : 20 + (length body + 24) ≡ 20 + length (body ++ (mi ++ hv))
    sizes =
        omega
          (arith, length-append body (mi ++ hv), hm pwd (headed a b tid (length body + 24) body))

pub create_packet-laid_out :
    (mac : List ℕ → List ℕ → List ℕ) (crc : List ℕ → ℕ) (a b : ℕ)
    (transaction_id username pwd : List ℕ) (nominated : Bool)
    → length transaction_id ≡ 16
    → ((key message : List ℕ) → length (mac key message) ≡ hmac_len)
    → create_packet mac crc (a ∷ b ∷ []) transaction_id username pwd nominated
      ≡ laid_out mac crc a b transaction_id pwd (to_vec (hmaced username nominated))
unfolding create_packet
create_packet-laid_out mac crc a b tid username pwd nominated ht hm =
    ap
      (λ t.
        seal mac crc pwd (2 + (2 + (length tid + 0))) k (k + 24) (k + 24 + 8)
          (a ∷ b ∷ (be16 ((k + 24 + 8) % 2 ^ 16) ++ t)))
      (ap₂ (◌++◌) (append_nil tid) (append_assoc (to_vec (hmaced username nominated)) _ _))
    ∙ seal-laid_out mac crc a b _ _ tid pwd (to_vec (hmaced username nominated)) _ k (k + 24)
        (k + 24 + 8) ht hm (omega arith) (sym len) (omega (arith, len)) (omega (arith, len))
  where
    k : ℕ
    k = written_len (hmaced username nominated)

    len : length (to_vec (hmaced username nominated)) ≡ k
    len = length-to_vec (hmaced username nominated)

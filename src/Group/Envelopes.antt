-- ===== src/Group/Envelopes.antt =====
-- `seal` and `open` of src/group.rs.
use zsync.Base.{
  Option-cases, length, take, drop, length-append, take-append, Bytes, text_eq, nat_eq, ok, ℕ, suc,
  ◌+◌, ◌^◌, ◌<◌, ◌≡◌, ap, ◌∙◌, subst, inl, inr, Option, none, some, [], ◌∷◌, ◌++◌, arith,
}
use zsync.Base.Words.{u64_be, from_be, from_be-u64_be}
use zsync.Group.{sender_len, Aead, seal, open_envelope}

take-at : (n : ℕ) (xs ys : Bytes) → length xs ≡ n → take n (xs ++ ys) ≡ xs
take-at n xs ys h = subst (λ k. take k (xs ++ ys) ≡ xs) h (take-append xs ys)

drop-past : (xs ys : Bytes) (k : ℕ) → drop (length xs + k) (xs ++ ys) ≡ drop k ys
drop-past [] ys k = let none_there : 0 + k ≡ k = omega arith in ap (λ n. drop n ys) none_there
drop-past (x ∷ xs) ys k =
    let one_more : suc (length xs) + k ≡ suc (length xs + k) = omega arith in
    ap (λ n. drop n (x ∷ (xs ++ ys))) one_more ∙ drop-past xs ys k

drop-at : (n k : ℕ) (xs ys : Bytes) → length xs ≡ n → drop (n + k) (xs ++ ys) ≡ drop k ys
drop-at n k xs ys h = subst (λ m. drop (m + k) (xs ++ ys) ≡ drop k ys) h (drop-past xs ys k)

abbrev pub fields : Bytes → Bytes → Bytes → ℕ → Bytes
fields sender nonce ct counter = sender ++ (u64_be counter ++ (nonce ++ ct))

-- The fields of an envelope, behind its first byte.
module _ (sender nonce ct : Bytes) (counter : ℕ) (hs : length sender ≡ 16)
    (hn : length nonce ≡ 24) where
  sender_at : take 16 (fields sender nonce ct counter) ≡ sender
  sender_at = take-at 16 sender _ hs

  counter_at :
      counter < 2 ^ 64 → from_be 0 (take 8 (drop 16 (fields sender nonce ct counter))) ≡ counter
  counter_at h =
      ap (λ b. from_be 0 (take 8 b)) (drop-at 16 0 sender _ hs) ∙ from_be-u64_be counter h

  nonce_at : take 24 (drop 24 (fields sender nonce ct counter)) ≡ nonce
  nonce_at = ap (take 24) (drop-at 16 8 sender _ hs) ∙ take-at 24 nonce ct hn

  ct_at : drop 48 (fields sender nonce ct counter) ≡ ct
  ct_at = drop-at 16 32 sender _ hs ∙ drop-at 24 0 nonce ct hn

  length-fields : length (fields sender nonce ct counter) ≡ 48 + length ct
  length-fields =
      omega (arith, length-append sender (u64_be counter ++ (nonce ++ ct)), length-append nonce ct)

module _ (aead : Aead) (aead_key : Bytes → Option Bytes) where
  opened :
      (secret group_id sender nonce plaintext ct key : Bytes) (counter : ℕ)
      (hs : length sender ≡ 16) (hn : length nonce ≡ 24)
      → counter < 2 ^ 64
      → aead_key secret ≡ some key
      → aead.encrypt key nonce (group_id ++ sender ++ u64_be counter) plaintext ≡ some ct
      → open_envelope aead aead_key secret group_id (1 ∷ fields sender nonce ct counter)
        ≡ ok (record { sender = sender; counter = counter; plaintext = plaintext })
  unfolding open_envelope
  opened secret group_id sender nonce plaintext ct key counter hs hn small k enc =
      rw
        (
          sender_at sender nonce ct counter hs hn,
          counter_at sender nonce ct counter hs hn small,
          nonce_at sender nonce ct counter hs hn,
          ct_at sender nonce ct counter hs hn,
          k,
          aead.decrypt-encrypt key nonce (group_id ++ sender ++ u64_be counter) plaintext ct enc,
          length-fields sender nonce ct counter hs hn,
          aead.length-encrypt key nonce (group_id ++ sender ++ u64_be counter) plaintext ct enc,
        )
        (ground arith)

  -- An envelope that was sealed for a group is opened, with the same secret and group id, to its
  -- sender, its counter and its plaintext, for a sender of 16 bytes, a nonce of 24 bytes and a
  -- counter of 64 bits.
  pub open_envelope-seal :
      (secret group_id sender nonce plaintext e : Bytes) (counter : ℕ)
      → length sender ≡ sender_len
      → length nonce ≡ 24
      → counter < 2 ^ 64
      → seal aead aead_key secret group_id sender counter nonce plaintext ≡ ok e
      → open_envelope aead aead_key secret group_id e
        ≡ ok (record { sender = sender; counter = counter; plaintext = plaintext })
  unfolding seal open_envelope
  open_envelope-seal secret group_id sender nonce plaintext e counter hs hn hc h =
      elim (Option-cases (aead_key secret)) [
        | inl missing ↦ absurd (failed missing)
        | inr (key, k) ↦
            elim (Option-cases
              (aead.encrypt key nonce (group_id ++ sender ++ u64_be counter) plaintext)) [
                | inl stuck ↦ absurd (refused key k stuck)
                | inr (ct, enc) ↦
                    let spelled : 1 ∷ fields sender nonce ct counter ≡ e = ground arith in
                    subst
                      (λ b.
                        open_envelope aead aead_key secret group_id b
                        ≡ ok (record { sender = sender; counter = counter; plaintext = plaintext }))
                      spelled
                      (opened secret group_id sender nonce plaintext ct key counter hs hn hc k enc)
              ]
      ]
    where
      failed : aead_key secret ≡ none → ⊥
      failed missing = ground arith

      refused :
          (key : Bytes)
          → aead_key secret ≡ some key
          → aead.encrypt key nonce (group_id ++ sender ++ u64_be counter) plaintext ≡ none
          → ⊥
      refused key k stuck = ground arith

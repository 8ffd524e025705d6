-- ===== src/Protocol/Clips/Verify.antt =====
-- Which clips `verify_clip` lets through, and why it refuses the others.
use zsync.Base.{
  length, is_empty, Bytes, text_beq_iff, text_eq, nat_eq, ok, err, ◌≤◌, ◌<◌, ◌≡◌, ◌≢◌, ◌↔◌, ◌⊎◌,
  false, arith,
}
use zsync.Protocol.{max_clip, too_large, size_mismatch, hash_mismatch, Clip, hash}
use zsync.Protocol.Clips.{verify_clip}

-- The content is whole, of the size and the hash that the metadata names, and not too large.
pub record IsVerified (sha256 : Bytes → Bytes) (c : Clip) : Type 0 where
  pub fits : length c.content ≤ max_clip
  pub sized : c.meta.size ≡ length c.content
  pub hashed : c.meta.hash ≡ hash sha256 c.content
  pub named : is_empty c.meta.hash ≡ false

module _ (sha256 : Bytes → Bytes) (c : Clip) where
  verify_sound : verify_clip sha256 c ≡ ok tt → IsVerified sha256 c
  unfolding verify_clip
  verify_sound h = ground (arith, text_beq_iff (hash sha256 c.content) c.meta.hash)

  verify_complete : IsVerified sha256 c → verify_clip sha256 c ≡ ok tt
  unfolding verify_clip
  verify_complete v = ground (arith, text_beq_iff (hash sha256 c.content) c.meta.hash)

  -- A clip is verified exactly when its content is at most 10 MiB, has the size that its metadata
  -- gives, and has the hash that its metadata gives, which is not empty.
  pub verify_clip_iff : (verify_clip sha256 c ≡ ok tt) ↔ IsVerified sha256 c
  verify_clip_iff = (verify_sound, verify_complete)

  -- The error says what is wrong: a size above the limit comes first, then a content that is not
  -- of the declared size, and a hash that does not match only for a content of the right size.
  pub verify_clip_errors :
      (verify_clip sha256 c ≡ ok tt)
      ⊎ ((verify_clip sha256 c ≡ err too_large)
          × ((max_clip < length c.content) ⊎ (max_clip < c.meta.size)))
      ⊎ ((verify_clip sha256 c ≡ err (size_mismatch (length c.content) c.meta.size))
          × (c.meta.size ≢ length c.content)
          × (c.meta.size ≤ max_clip))
      ⊎ ((verify_clip sha256 c ≡ err hash_mismatch)
          × (c.meta.size ≡ length c.content)
          × ¬ (IsVerified sha256 c))
  unfolding verify_clip
  verify_clip_errors = ground (arith, text_beq_iff (hash sha256 c.content) c.meta.hash)

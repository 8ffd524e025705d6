-- ===== src/Group/Keys.antt =====
-- src/group.rs: the files of group keys. The directory is a map from the group ids in hexadecimal
-- digits, which name its files, to their contents; `saves` says whether the disk takes a write.
-- base64 and serde_json are arguments.
use zsync.Base.{
  if◌then◌else◌, Option-cases, length, Bytes, Text, text_eq, ◌>>=◌, ◌>>◌, fail_if, or_fail, Result,
  ◌==◌, nat_eq, ok, err, ℕ, ◌≡◌, refl, inl, inr, Bool, true, not, Option, none, some, arith,
}
use zsync.Base.Map.{Map, lookup, insert, lookup-insert, eq_refl}
use zsync.Protocol.{Json, hex_encode}
use zsync.Group.Uris.{GroupUri, group_key_len}

pub record GroupFile : Type 0 where
  pub key : Text
  pub host : Text
  pub port : ℕ

abbrev pub KeyDir : Type 0
KeyDir = Map Text Bytes

pub data KeyError : Type 0 where
  no_key not_saved missing_key bad_file bad_base64 wrong_length : KeyError

-- `URL_SAFE_NO_PAD`: what was encoded is decoded.
pub record Base64 : Type 0 where
  pub encode : Bytes → Text
  pub decode : Text → Option Bytes
  pub decode-encode : (b : Bytes) → decode (encode b) ≡ some b

module _ (b64 : Base64) (codec : Json GroupFile) where
  unfoldable pub save_group_key : KeyDir → GroupUri → Bool → KeyDir × Result KeyError (Unit {0})
  save_group_key dir uri saves = elim uri.key [
    | none ↦ (dir, err no_key)
    | some key ↦
        elim (codec.to_vec (record { key = b64.encode key; host = uri.host; port = uri.port })) [
          | none ↦ (dir, err not_saved)
          | some bytes ↦
              if saves
              then (insert (hex_encode uri.group_id) bytes dir, ok tt)
              else (dir, err not_saved)
        ]
  ]

  -- The key in the text of a file.
  unfoldable pub key_of_file : GroupFile → Result KeyError Bytes
  key_of_file rec = do
    bytes ← or_fail (b64.decode rec.key) bad_base64
    fail_if (not (length bytes == group_key_len)) wrong_length
    ok bytes

  unfoldable pub load_group_key : KeyDir → Bytes → Result KeyError Bytes
  unfolding key_of_file
  load_group_key dir group_id = do
    file ← or_fail (lookup (hex_encode group_id) dir) missing_key
    rec ← or_fail (codec.from_slice file) bad_file
    key_of_file rec

  -- A saved key is loaded for the id of its group.
  pub load_group_key-save_group_key :
      (dir : KeyDir) (group_id key : Bytes) (host : Text) (port : ℕ)
      → length key ≡ group_key_len
      → let uri : GroupUri = record {
        group_id = group_id;
        key = some key;
        host = host;
        port = port;
      } in
        (save_group_key dir uri true).1 ≡ ok tt
        → load_group_key (save_group_key dir uri true).0 group_id ≡ ok key
  unfolding save_group_key load_group_key
  load_group_key-save_group_key dir group_id key host port fits saved =
      elim (Option-cases (codec.to_vec rec)) [
        | inl unwritten ↦ absurd (ground (arith, unwritten))
        | inr (bytes, written) ↦
            rw
              (
                written,
                save_group_key,
                lookup-insert id id bytes dir,
                eq_refl id,
                codec.from_slice-to_vec rec bytes written,
                b64.decode-encode key,
                fits,
              )
              refl
      ]
    where
      id : Text
      id = hex_encode group_id

      rec : GroupFile
      rec = record { key = b64.encode key; host = host; port = port }

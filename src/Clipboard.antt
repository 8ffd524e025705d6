-- ===== src/Clipboard.antt =====
-- src/clipboard/mod.rs: items, file names, and the backend that keeps the current item.
-- A path is a text, empty where the source has an empty `PathBuf`.
pub mod Names
pub mod Memory
pub mod File
pub mod Uris
pub mod Native
mod Examples
use zsync.Base.{
  ltb, leb, eqb, if◌then◌else◌, ltb→lt, lt→ltb, le→ltb, leb→le, eqb_iff, Bool-cases, Option-cases,
  length, get_or, take, drop, replicate, is_empty, any, all, keep, All, length-append, length-drop,
  length-take, take-append, drop-append, take-append-drop, take-length, any-append, length-keep-le,
  Bytes, Text, codes, text_beq, text_beq_iff, text_eq, starts_with, utf8_width, text_len, ◌>>=◌,
  ◌>>◌, fail_if, or_fail, Result-cases, Result, Eq, ◌==◌, nat_eq, ok, err, ℕ, zero, suc, ◌+◌, ◌-◌,
  ◌*◌, ◌/◌, ◌%◌, ◌^◌, ◌≤◌, ◌<◌, min, max, ◌≡◌, refl, sym, ap, ap₂, ◌∙◌, subst, ◌≢◌, ◌↔◌, ◌⊎◌, inl,
  inr, Bool, true, false, not, ◌&&◌, ◌||◌, Option, none, some, List, [], ◌∷◌, ◌++◌, map,
  append_assoc, append-nil, arith,
}
use zsync.Base.Paths.{file_name}
use zsync.Protocol.{hash}
use zsync.Protocol.Mime.{detect_mime, ext_for_mime}

pub record Item : Type 0 where
  pub mime : Text
  pub content : Bytes
  pub hash : Text
  pub path : Text
  pub name : Text

unfoldable pub sanitize_basename : Text → Option Text
sanitize_basename name = elim (file_name name) [
  | none ↦ none
  | some base ↦
      let cleaned =
        take 255 (keep (λ c. not (c == b'/') && not (c == b'\\') && not (c == 0)) base) in
      if is_empty base || base == codes "." || base == codes ".."
      then none
      else if is_empty cleaned
      then none
      else some cleaned
]

-- `Item::new`.
unfoldable pub new_item : (Bytes → Bytes) → Text → Bytes → Item
new_item sha256 mime content = record {
  mime = if is_empty mime then detect_mime content else mime;
  content = content;
  hash = hash sha256 content;
  path = [];
  name = [];
}

unfoldable pub with_name : Item → Text → Item
with_name item name = record item {
  name = elim (sanitize_basename name) [ none ↦ [] | some n ↦ n ];
}

unfoldable pub is_image_mime : Text → Bool
is_image_mime mime = starts_with mime (codes "image/")

unfoldable pub should_write_file : Text → Text → Bytes → Bool
unfolding is_image_mime
should_write_file name mime content =
    if not (is_empty name)
    then true
    else if is_image_mime mime
    then true
    else if starts_with mime (codes "text/") || is_empty mime
    then is_image_mime (detect_mime content)
      || (not (starts_with (detect_mime content) (codes "text/")) && not (is_empty content))
    else true

-- The name under which `write_clip_file` writes a clip into its directory.
unfoldable pub clip_filename : Text → Text → Bytes → Text
clip_filename name mime content =
    let kind = if is_empty mime then detect_mime content else mime in
    elim (sanitize_basename name) [ none ↦ codes "zsync-clip" ++ ext_for_mime kind | some n ↦ n ]

-- The trait `Backend`, as operations on the state `B` of an implementation. A read or a write may
-- fail; a write that fails may have changed the state.
pub record Backend (B : Type 0) : Type 0 where
  pub get : B → Result (Unit {0}) (Option Item)
  pub set : B → Item → B × Result (Unit {0}) Item
  pub headless : B → Bool
  pub current_path : B → Text

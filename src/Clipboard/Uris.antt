-- ===== src/Clipboard/Uris.antt =====
-- src/clipboard/mod.rs: files that are copied as a path or as a list of `file://` URIs, and what is
-- read from them. `files` has the content of every file of the machine by its path; a file that is
-- there can be read.
pub mod Encoding
pub mod RoundTrip
use zsync.Base.{
  ltb, leb, eqb, if◌then◌else◌, ltb→lt, lt→ltb, le→ltb, leb→le, eqb_iff, Bool-cases, Option-cases,
  length, get_or, take, drop, replicate, is_empty, any, all, keep, All, length-append, length-drop,
  length-take, take-append, drop-append, take-append-drop, take-length, any-append, length-keep-le,
  Bytes, Text, codes, text_beq, text_beq_iff, text_eq, starts_with, utf8_width, text_len, ◌>>=◌,
  ◌>>◌, fail_if, or_fail, Result-cases, Result, Eq, ◌==◌, nat_eq, ok, err, ℕ, zero, suc, ◌+◌, ◌-◌,
  ◌*◌, ◌/◌, ◌%◌, ◌^◌, ◌≤◌, ◌<◌, min, max, ◌≡◌, refl, sym, ap, ap₂, ◌∙◌, subst, ◌≢◌, ◌↔◌, ◌⊎◌, inl,
  inr, Bool, true, false, not, ◌&&◌, ◌||◌, Option, none, some, List, [], ◌∷◌, ◌++◌, map,
  append_assoc, append-nil, arith,
}
use zsync.Base.Map.{lookup}
use zsync.Base.Paths.{file_name, extension, lines, to_ascii_lowercase}
use zsync.Base.Utf8.{as_bytes, from_utf8_lossy}
use zsync.Group.{trim, from_str_radix}
use zsync.Group.Uris.{strip_prefix}
use zsync.Protocol.{max_clip}
use zsync.Protocol.Mime.{is_utf8, detect_mime, mime_from_filename}
use zsync.Clipboard.{Item, new_item, with_name, sanitize_basename}
use zsync.Clipboard.File.{Files}

-- `str::from_utf8`.
unfoldable pub from_utf8 : Bytes → Option Text
from_utf8 b = if is_utf8 b then some (from_utf8_lossy b) else none

-- `char::is_ascii_alphanumeric`.
abbrev pub is_ascii_alphanumeric : ℕ → Bool
is_ascii_alphanumeric c =
    (leb b'0' c && leb c b'9') || (leb b'a' c && leb c b'z') || (leb b'A' c && leb c b'Z')

-- A copied text that may name a file.
unfoldable pub looks_like_copied_filename : Bytes → Bool
unfolding from_utf8
looks_like_copied_filename text =
    let s = trim (elim (from_utf8 text) [ none ↦ [] | some t ↦ t ]) in
    let lower = to_ascii_lowercase s in
    if is_empty s || ltb 1024 (text_len s) || any (λ c. c == 10) s || starts_with s (codes "<")
    then false
    else if starts_with lower (codes "http://") || starts_with lower (codes "https://")
    then false
    else if starts_with s (codes "/") || starts_with s (codes "file:") || starts_with s (codes "~")
    then true
    else (elim (extension s) [
      | none ↦ false
      | some e ↦ not (is_empty e) && all is_ascii_alphanumeric e
    ])

-- The bytes that stand for themselves in a URI.
abbrev pub is_plain_byte : ℕ → Bool
is_plain_byte b =
    is_ascii_alphanumeric b || b == b'/' || b == b'.' || b == b'-' || b == b'_' || b == b'~'

abbrev pub upper_hex : ℕ → ℕ
upper_hex n = if ltb n 10 then b'0' + n else b'A' + (n - 10)

abbrev pub encode_byte : ℕ → Text
encode_byte b =
    if is_plain_byte b then b ∷ [] else b'%' ∷ upper_hex (b / 16) ∷ upper_hex (b % 16) ∷ []

unfoldable pub encode_bytes : Bytes → Text
encode_bytes [] = []
encode_bytes (b ∷ bs) = encode_byte b ++ encode_bytes bs

-- `canonicalize` is `std::fs::canonicalize`.
unfoldable pub file_uri : (Text → Option Text) → Text → Text
file_uri canonicalize path =
    let abs : Text = elim (canonicalize path) [ none ↦ path | some p ↦ p ] in
    codes "file://" ++ (encode_bytes (as_bytes abs) ++ codes "\n")

-- The loop over the bytes of a URI.
unfoldable pub decode_bytes : Bytes → Bytes
decode_bytes [] = []
decode_bytes (b ∷ []) = b ∷ []
decode_bytes (b ∷ h ∷ []) = b ∷ h ∷ []
decode_bytes (b ∷ h ∷ l ∷ bs) = elim (b == b'%') [
  | false ↦ b ∷ decode_bytes (h ∷ l ∷ bs)
  | true ↦ elim (from_str_radix (h ∷ l ∷ [])) [
    | err e ↦ b ∷ decode_bytes (h ∷ l ∷ bs)
    | ok v ↦ v ∷ decode_bytes bs
  ]
]

unfoldable pub percent_decode : Text → Text
unfolding decode_bytes
percent_decode s = from_utf8_lossy (decode_bytes (as_bytes s))

-- `sanitize_basename(path.file_name()?)`.
abbrev pub sane_name : Option Text → Option Text
sane_name none = none
sane_name (some base) = sanitize_basename base

module _ (files : Files) where
  abbrev pub is_file : Text → Bool
  is_file path = elim (lookup path files) [ none ↦ false | some _ ↦ true ]

  unfoldable pub path_from_uri_or_path : Text → Option Text
  path_from_uri_or_path s = elim (strip_prefix (codes "file://") s) [
    | some rest ↦
        let decoded = percent_decode rest in
        some (elim (strip_prefix (codes "localhost") decoded) [ none ↦ decoded | some p ↦ p ])
    | none ↦ if is_file s then some s else none
  ]

  -- A line that is no path ends the search.
  unfoldable pub first_in : List Text → Option Text
  first_in [] = none
  first_in (l ∷ ls) =
      let line = trim l in
      let next = first_in ls in
      if is_empty line || starts_with line (codes "#")
      then next
      else (elim (path_from_uri_or_path line) [
        | none ↦ none
        | some path ↦ if is_file path then some path else next
      ])

  unfoldable pub first_existing_file : Text → Option Text
  unfolding first_in
  first_existing_file text = first_in (lines text)

  module _ (sha256 : Bytes → Bytes) where
    unfoldable pub read_file_item : Text → Option Item
    read_file_item path = elim (lookup path files) [
      | none ↦ none
      | some content ↦
          if ltb max_clip (length content) then none else (elim (sane_name (file_name path)) [
            | none ↦ none
            | some name ↦
                let mime : Text = elim (mime_from_filename name) [
                  | none ↦ detect_mime content
                  | some m ↦ m
                ] in
                some (with_name (new_item sha256 mime content) name)
          ])
    ]

    unfoldable pub item_from_file_text : Bytes → Option Item
    item_from_file_text text = elim (from_utf8 text) [
      | none ↦ none
      | some s ↦ elim (first_existing_file s) [ none ↦ none | some path ↦ read_file_item path ]
    ]

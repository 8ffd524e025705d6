-- ===== src/Clipboard/Uris/RoundTrip.antt =====
-- A file that one program offers as a URI, and another reads from the clipboard.
use zsync.Base.{
  All-append, All, Bytes, Text, codes, text_eq, starts_with, nat_eq, ℕ, ◌<◌, ◌≡◌, refl, sym, ap,
  ◌∙◌, inl, true, false, Option, none, some, [], ◌∷◌, ◌++◌, append-nil, arith,
}
use zsync.Base.Map.{lookup}
use zsync.Base.Paths.{split_on, strip_cr, ended_lines, lines}
use zsync.Base.Utf8.{
  IsChar, lead_one, encode_char, as_bytes, from_utf8_lossy, from_utf8_lossy-as_bytes, decode_from,
}
use zsync.Group.{is_whitespace, trim, trim_end}
use zsync.Group.Uris.{strip_prefix}
use zsync.Protocol.Mime.{is_utf8}
use zsync.Clipboard.File.{Files}
use zsync.Clipboard.Uris.{
  from_utf8, encode_bytes, decode_bytes, file_uri, percent_decode, path_from_uri_or_path, first_in,
  first_existing_file, read_file_item, item_from_file_text,
}
use zsync.Clipboard.Uris.Encoding.{
  IsVisible, as_bytes-AreBytes, encode_bytes-IsVisible, decode_bytes-encode_bytes,
}

abbrev IsAscii : ℕ → Type 0
IsAscii c = c < 128

as_bytes-ascii : (s : Text) → All IsAscii s → as_bytes s ≡ s
unfolding as_bytes encode_char
as_bytes-ascii [] h = refl
as_bytes-ascii (c ∷ s) (hc, hs) = ground (arith, as_bytes-ascii s hs)

is_utf8-ascii : (s : Text) → All IsAscii s → is_utf8 s ≡ true
unfolding is_utf8
is_utf8-ascii [] h = refl
is_utf8-ascii (c ∷ s) (hc, hs) = ground (arith, lead_one c hc, is_utf8-ascii s hs)

ascii-IsChar : (s : Text) → All IsAscii s → All IsChar s
ascii-IsChar [] h = tt
ascii-IsChar (c ∷ s) (hc, hs) = ((omega arith, inl (omega arith)), ascii-IsChar s hs)

from_utf8_lossy-ascii : (s : Text) → All IsAscii s → from_utf8_lossy s ≡ s
unfolding decode_from
from_utf8_lossy-ascii s h =
    ap from_utf8_lossy (sym (append-nil s ∙ refl) ∙ ap (λ b. b ++ []) (sym (as_bytes-ascii s h)))
    ∙ from_utf8_lossy-as_bytes s [] (ascii-IsChar s h)
    ∙ append-nil s

from_utf8-ascii : (s : Text) → All IsAscii s → from_utf8 s ≡ some s
unfolding from_utf8
from_utf8-ascii s h = rw (is_utf8-ascii s h, from_utf8) (ap some (from_utf8_lossy-ascii s h))

visible-IsAscii : (s : Text) → All IsVisible s → All IsAscii s
visible-IsAscii [] h = tt
visible-IsAscii (c ∷ s) ((_, hc), hs) = (omega arith, visible-IsAscii s hs)

visible_spaceless : (c : ℕ) → IsVisible c → is_whitespace c ≡ false
visible_spaceless c (h, k) = ground arith

trim_end-visible : (s : Text) → All IsVisible s → trim_end s ≡ s
trim_end-visible [] h = refl
trim_end-visible (c ∷ s) (hc, hs) = ground (arith, trim_end-visible s hs, visible_spaceless c hc)

trim-visible : (s : Text) → All IsVisible s → trim s ≡ s
unfolding trim
trim-visible [] h = refl
trim-visible (c ∷ s) (hc, hs) = rw (visible_spaceless c hc) (trim_end-visible (c ∷ s) (hc, hs))

strip_cr-visible : (s : Text) → All IsVisible s → strip_cr s ≡ s
strip_cr-visible [] h = refl
strip_cr-visible (c ∷ []) (hc, _) = ground arith
strip_cr-visible (c ∷ d ∷ s) (hc, hs) = ap (◌∷◌ c) (strip_cr-visible (d ∷ s) hs)

split_on-visible : (s : Text) → All IsVisible s → split_on 10 (s ++ 10 ∷ []) ≡ s ∷ [] ∷ []
split_on-visible [] h = refl
split_on-visible (c ∷ s) (hc, hs) = rw (split_on-visible s hs) (ground arith)

lines-visible : (s : Text) → All IsVisible s → lines (s ++ 10 ∷ []) ≡ s ∷ []
unfolding lines
lines-visible s h = ap ended_lines (split_on-visible s h) ∙ ap (λ l. l ∷ []) (strip_cr-visible s h)

-- A text in URI characters is decoded to what it was.
percent_decode-encode_bytes :
    (s : Text) → All IsChar s → percent_decode (encode_bytes (as_bytes s)) ≡ s
unfolding percent_decode decode_from
percent_decode-encode_bytes s h =
    let plain = visible-IsAscii _ (encode_bytes-IsVisible (as_bytes s) (as_bytes-AreBytes s h)) in
    ap (λ b. from_utf8_lossy (decode_bytes b)) (as_bytes-ascii (encode_bytes (as_bytes s)) plain)
    ∙ ap from_utf8_lossy (
        decode_bytes-encode_bytes (as_bytes s) (as_bytes-AreBytes s h)
        ∙ sym (append-nil (as_bytes s)))
    ∙ from_utf8_lossy-as_bytes s [] h
    ∙ append-nil s

not_localhost :
    (s : Text) → starts_with s (codes "/") ≡ true → strip_prefix (codes "localhost") s ≡ none
not_localhost [] h = refl
not_localhost (c ∷ s) h = ground arith

-- The URI of a path, without the line feed.
abbrev uri : Text → Text
uri abs = codes "file://" ++ encode_bytes (as_bytes abs)

uri-IsVisible : (abs : Text) → All IsChar abs → All IsVisible (uri abs)
uri-IsVisible abs h =
    All-append _ (codes "file://") (encode_bytes (as_bytes abs)) (ground arith)
      (encode_bytes-IsVisible (as_bytes abs) (as_bytes-AreBytes abs h))

module _ (files : Files) (abs : Text) (content : Bytes) (chars : All IsChar abs)
    (absolute : starts_with abs (codes "/") ≡ true) (there : lookup abs files ≡ some content) where
  path_from_uri : path_from_uri_or_path files (uri abs) ≡ some abs
  unfolding path_from_uri_or_path
  path_from_uri =
      ap (λ d. some (elim (strip_prefix (codes "localhost") d) [ none ↦ d | some p ↦ p ]))
        (percent_decode-encode_bytes abs chars)
      ∙ ap (λ o. some (elim o [ none ↦ abs | some p ↦ p ])) (not_localhost abs absolute)

  first_existing_file-uri : first_existing_file files (uri abs ++ codes "\n") ≡ some abs
  unfolding first_existing_file
  first_existing_file-uri =
      ap (first_in files) (lines-visible (uri abs) (uri-IsVisible abs chars))
      ∙ ground (arith, trim-visible (uri abs) (uri-IsVisible abs chars), path_from_uri, there)

  pub item_from_uri :
      (sha256 : Bytes → Bytes)
      → item_from_file_text files sha256 (as_bytes (uri abs ++ codes "\n"))
        ≡ read_file_item files sha256 abs
  unfolding item_from_file_text
  item_from_uri sha256 =
      let text : from_utf8 (as_bytes line) ≡ some line =
        ap from_utf8 (as_bytes-ascii line plain) ∙ from_utf8-ascii line plain in
      rw (text, item_from_file_text, first_existing_file-uri) refl
    where
      line : Text
      line = uri abs ++ codes "\n"

      plain : All IsAscii line
      plain =
          All-append IsAscii (uri abs) (codes "\n")
            (visible-IsAscii (uri abs) (uri-IsVisible abs chars)) (ground arith)

-- The canonical path of a file that is there is an absolute one of Unicode characters, and the
-- file is offered under it: whoever reads the URI from the clipboard, on the same machine, gets
-- what the file at that path gives.
pub item_from_file_text-file_uri :
    (files : Files) (sha256 : Bytes → Bytes) (canonicalize : Text → Option Text) (path abs : Text)
    (content : Bytes)
    → canonicalize path ≡ some abs
    → All IsChar abs
    → starts_with abs (codes "/") ≡ true
    → lookup abs files ≡ some content
    → item_from_file_text files sha256 (as_bytes (file_uri canonicalize path))
      ≡ read_file_item files sha256 abs
unfolding file_uri
item_from_file_text-file_uri files sha256 canonicalize path abs content canonical chars absolute
      there =
    ap
      (λ o. item_from_file_text files sha256 (
        as_bytes (
          codes "file://"
          ++ (encode_bytes (as_bytes (elim o [ none ↦ path | some p ↦ p ])) ++ codes "\n"))))
      canonical
    ∙ item_from_uri files abs content chars absolute there sha256

-- ===== src/Protocol/Mime.antt =====
-- Content types of src/protocol.rs: from the content, from a file name, and back to an extension.
use zsync.Base.{
  leb, if◌then◌else◌, length, is_empty, any, Bytes, Text, codes, text_eq, starts_with, ◌==◌, nat_eq,
  ℕ, zero, suc, Bool, true, false, not, ◌&&◌, ◌||◌, Option, none, some, List, [], ◌∷◌,
}
use zsync.Base.Utf8.{lead}
use zsync.Base.Paths.{extension, to_ascii_lowercase}

utf8_from : ℕ → ℕ → ℕ → Bytes → Bool
utf8_from zero lo hi [] = true
utf8_from (suc n) lo hi [] = false
utf8_from zero lo hi (b ∷ bs) = elim (lead b) [
  | none ↦ false
  | some (n, lo', hi') ↦ utf8_from n lo' hi' bs
]
utf8_from (suc n) lo hi (b ∷ bs) = leb lo b && leb b hi && utf8_from n 0x80 0xbf bs

-- `std::str::from_utf8(data).is_ok()`.
unfoldable pub is_utf8 : Bytes → Bool
unfolding utf8_from lead
is_utf8 = utf8_from 0 0x80 0xbf

unfoldable pub detect_mime : Bytes → Text
detect_mime bytes =
    if leb 8 (length bytes)
      && starts_with bytes (0x89 ∷ b'P' ∷ b'N' ∷ b'G' ∷ 0x0d ∷ 0x0a ∷ 0x1a ∷ 0x0a ∷ [])
    then codes "image/png"
    else if leb 3 (length bytes) && starts_with bytes (0xff ∷ 0xd8 ∷ 0xff ∷ [])
    then codes "image/jpeg"
    else if leb 4 (length bytes) && starts_with bytes (codes "GIF8")
    then codes "image/gif"
    else if starts_with bytes (codes "%PDF")
    then codes "application/pdf"
    else if is_empty bytes || (is_utf8 bytes && not (any (λ b. b == 0) bytes))
    then codes "text/plain"
    else codes "application/octet-stream"

one_of : List Text → Text → Bool
one_of names ext = any (λ n. n == ext) names

known : Text → Option Text
unfolding one_of
known ext =
    if ext == codes "png"
    then some (codes "image/png")
    else if one_of (codes "jpg" ∷ codes "jpeg" ∷ []) ext
    then some (codes "image/jpeg")
    else if ext == codes "gif"
    then some (codes "image/gif")
    else if ext == codes "webp"
    then some (codes "image/webp")
    else if ext == codes "svg"
    then some (codes "image/svg+xml")
    else if ext == codes "pdf"
    then some (codes "application/pdf")
    else if ext == codes "zip"
    then some (codes "application/zip")
    else if one_of (codes "gz" ∷ codes "tgz" ∷ []) ext
    then some (codes "application/gzip")
    else if ext == codes "json"
    then some (codes "application/json")
    else if one_of
        (codes "txt"
          ∷ codes "md"
          ∷ codes "rs"
          ∷ codes "toml"
          ∷ codes "py"
          ∷ codes "sh"
          ∷ codes "c"
          ∷ codes "h"
          ∷ codes "go"
          ∷ codes "ts"
          ∷ codes "js"
          ∷ [])
        ext
    then some (codes "text/plain")
    else if one_of (codes "html" ∷ codes "htm" ∷ []) ext
    then some (codes "text/html")
    else if ext == codes "csv"
    then some (codes "text/csv")
    else if ext == codes "mp4"
    then some (codes "video/mp4")
    else if ext == codes "mp3"
    then some (codes "audio/mpeg")
    else if ext == codes "wav"
    then some (codes "audio/wav")
    else none

unfoldable pub mime_from_filename : Text → Option Text
unfolding known extension
mime_from_filename name = elim (extension name) [
  | none ↦ none
  | some ext ↦ known (to_ascii_lowercase ext)
]

unfoldable pub ext_for_mime : Text → Text
ext_for_mime mime =
    if starts_with mime (codes "image/png")
    then codes ".png"
    else if starts_with mime (codes "image/jpeg") || starts_with mime (codes "image/jpg")
    then codes ".jpg"
    else if starts_with mime (codes "image/gif")
    then codes ".gif"
    else if starts_with mime (codes "image/webp")
    then codes ".webp"
    else if starts_with mime (codes "application/pdf")
    then codes ".pdf"
    else if starts_with mime (codes "application/zip")
    then codes ".zip"
    else if starts_with mime (codes "text/plain")
    then codes ".txt"
    else if starts_with mime (codes "text/html")
    then codes ".html"
    else codes ".bin"

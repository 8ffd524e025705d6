-- ===== src/Clipboard/Native.antt =====
-- src/clipboard/native.rs for Linux: the clipboard of a desktop, which the program reads and writes
-- by the commands of Wayland and X11. `run_out` gives the output of a command that succeeds, and
-- `run_in` what the desktop's clipboard becomes when a command reads the given bytes.
pub mod Offers
mod Examples
use zsync.Base.{
  ltb, leb, eqb, if◌then◌else◌, ltb→lt, lt→ltb, le→ltb, leb→le, eqb_iff, Bool-cases, Option-cases,
  length, get_or, take, drop, replicate, is_empty, any, all, keep, All, length-append, length-drop,
  length-take, take-append, drop-append, take-append-drop, take-length, any-append, length-keep-le,
  Bytes, Text, codes, text_beq, text_beq_iff, text_eq, starts_with, utf8_width, text_len, ◌>>=◌,
  ◌>>◌, fail_if, or_fail, Result-cases, Result, Eq, ◌==◌, nat_eq, ok, err, ℕ, zero, suc, ◌+◌, ◌-◌,
  ◌*◌, ◌/◌, ◌%◌, ◌^◌, ◌≤◌, ◌<◌, min, max, ◌≡◌, refl, sym, ap, ap₂, ◌∙◌, subst, ◌≢◌, ◌↔◌, ◌⊎◌, inl,
  inr, Bool, true, false, not, ◌&&◌, ◌||◌, Option, none, some, List, [], ◌∷◌, ◌++◌, map,
  append_assoc, append-nil, arith,
}
use zsync.Base.Map.{lookup}
use zsync.Base.Paths.{contains}
use zsync.Base.Utf8.{as_bytes, from_utf8_lossy}
use zsync.Protocol.{Json}
use zsync.Clipboard.{Item, Backend, new_item}
use zsync.Clipboard.File.{Files, FileBackend, Current, file_get, file_set}
use zsync.Clipboard.Uris.{file_uri, is_file, item_from_file_text}

-- The commands, over the state `O` of the desktop.
pub record Desktop (O : Type 0) : Type 0 where
  pub run_out : O → Text → List Text → Option Bytes
  pub run_in : O → Text → List Text → Bytes → O × Bool

pub record Native (O : Type 0) : Type 0 where
  pub file : FileBackend
  pub os : O

-- The first of two that is there.
abbrev pub first_of : Option Item → Option Item → Option Item
first_of none next = next
first_of (some item) next = some item

-- An item of this content type, unless there are no bytes.
abbrev pub unless_blank : (Bytes → Bytes) → Text → Option Bytes → Option Item
unless_blank sha256 mime none = none
unless_blank sha256 mime (some b) = if is_empty b then none else some (new_item sha256 mime b)

module _ (sha256 : Bytes → Bytes) (files : Files) where
  abbrev pub of_uris : Option Bytes → Option Item
  of_uris none = none
  of_uris (some b) = item_from_file_text files sha256 b

  -- The types that are asked for if the list of types contains them, in the order of the source;
  -- `fetch` reads one of them.
  unfoldable pub of_targets : Text → (Text → Option Bytes) → Option Item
  of_targets list fetch =
      let asked : Text → Option Bytes = λ mime. if contains list mime then fetch mime else none in
      let uris = of_uris (asked (codes "text/uri-list")) in
      let image = unless_blank sha256 (codes "image/png") (asked (codes "image/png")) in
      let pdf = unless_blank sha256 (codes "application/pdf") (asked (codes "application/pdf")) in
      let zip = unless_blank sha256 (codes "application/zip") (asked (codes "application/zip")) in
      first_of uris (first_of image (first_of pdf zip))

  -- What the clipboard gives as text: the file that it names, or itself.
  unfoldable pub of_text : Option Bytes → Option Item
  of_text none = none
  of_text (some b) =
      if is_empty b
      then none
      else first_of (item_from_file_text files sha256 b)
          (some (new_item sha256 (codes "text/plain") b))

  abbrev pub of_types : Option Bytes → (Text → Option Bytes) → Option Item
  of_types none fetch = none
  of_types (some list) fetch = of_targets (from_utf8_lossy list) fetch

  unfoldable pub of_clipboard : Option Bytes → (Text → Option Bytes) → Option Bytes → Option Item
  unfolding of_targets of_text
  of_clipboard types fetch text = first_of (of_types types fetch) (of_text text)

  module _ {O : Type 0} (desktop : Desktop O) where
    unfoldable pub wayland_get : O → Option Item
    unfolding of_clipboard
    wayland_get os =
        let paste = desktop.run_out os (codes "wl-paste") in
        of_clipboard (paste (codes "--list-types" ∷ []))
          (λ mime. paste (codes "--no-newline" ∷ codes "-t" ∷ mime ∷ []))
          (paste (codes "--no-newline" ∷ []))

    unfoldable pub xclip_get : O → Option Item
    unfolding of_clipboard
    xclip_get os =
        let out = λ (more : List Text).
          desktop.run_out os (codes "xclip")
            (codes "-selection" ∷ codes "clipboard" ∷ codes "-o" ∷ more) in
        of_clipboard (out (codes "-t" ∷ codes "TARGETS" ∷ []))
          (λ mime. out (codes "-t" ∷ mime ∷ [])) (out [])

    unfoldable pub xsel_get : O → Option Item
    unfolding of_text
    xsel_get os =
        of_text (desktop.run_out os (codes "xsel") (codes "--clipboard" ∷ codes "--output" ∷ []))

-- What a file, a typed content and a text are offered as: the arguments behind the common ones,
-- and the bytes.
unfoldable pub offer : (Text → Option Text) → Files → Item → List Text × Bytes
offer canonicalize files item =
    if not (is_empty item.name) && is_file files item.path
    then (codes "-t" ∷ codes "text/uri-list" ∷ [], as_bytes (file_uri canonicalize item.path))
    else if not (is_empty item.mime) && not (starts_with item.mime (codes "text/plain"))
    then (codes "-t" ∷ item.mime ∷ [], item.content)
    else ([], item.content)

module _ (canonicalize : Text → Option Text) {O : Type 0} (desktop : Desktop O) where
  unfoldable pub wayland_set : Files → O → Item → O × Bool
  unfolding offer
  wayland_set files os item =
      let (args, bytes) = offer canonicalize files item in
      desktop.run_in os (codes "wl-copy") args bytes

  unfoldable pub xclip_set : Files → O → Item → O × Bool
  unfolding offer
  xclip_set files os item =
      let (args, bytes) = offer canonicalize files item in
      desktop.run_in os (codes "xclip") (codes "-selection" ∷ codes "clipboard" ∷ args) bytes

  unfoldable pub xsel_set : Files → O → Item → O × Bool
  xsel_set files os item =
      desktop.run_in os (codes "xsel") (codes "--clipboard" ∷ codes "--input" ∷ []) item.content

-- The item of the desktop, with the name and the content type that were stored with its hash.
abbrev pub merged : Item → Item → Item
merged os stored = record os {
  name = if is_empty os.name then stored.name else os.name;
  mime =
      if starts_with os.mime (codes "text/") && not (starts_with stored.mime (codes "text/"))
      then stored.mime
      else os.mime;
}

abbrev pub unless_no_bytes : Item → Option Item
unless_no_bytes os = if is_empty os.content then none else some os

unfoldable pub combined : Option Item → Option Item → Option Item
combined none stored = stored
combined (some os) none = unless_no_bytes os
combined (some os) (some stored) =
    if os.hash == stored.hash then some (merged os stored) else unless_no_bytes os

module _ (allows : Text → Bool) (codec : Json Current) (canonicalize : Text → Option Text)
    (sha256 : Bytes → Bytes) {O : Type 0} (getter : Files → O → Option Item)
    (setter : Files → O → Item → O × Bool) where
  unfoldable pub native_get : Native O → Result (Unit {0}) (Option Item)
  unfolding combined
  native_get n = ok (
      combined (getter n.file.files n.os)
        (elim (file_get allows codec canonicalize sha256 n.file) [ err e ↦ none | ok item ↦ item ]))

  unfoldable pub native_set : Native O → Item → Native O × Result (Unit {0}) Item
  native_set n item =
      let (file, result) = file_set allows codec canonicalize sha256 n.file item in
      elim result [
        | err e ↦ (record n { file = file }, err e)
        | ok stored ↦
            let (os, done) = setter file.files n.os stored in
            (record { file = file; os = os }, (if done then ok stored else err tt))
      ]

  unfoldable pub native : Backend (Native O)
  unfolding native_get native_set
  native = record {
    get = native_get;
    set = native_set;
    headless = λ n. false;
    current_path = λ n. n.file.cur.path;
  }

-- ===== src/Clipboard/Native/Offers.antt =====
-- A file that is put on the clipboard of a Wayland desktop, and read from it again.
use zsync.Base.{
  is_empty, All, Bytes, Text, codes, text_eq, starts_with, nat_eq, ◌≡◌, refl, sym, ap, ◌∙◌, Bool,
  true, false, Option, none, some, [], ◌∷◌,
}
use zsync.Base.Map.{lookup}
use zsync.Base.Paths.{contains}
use zsync.Base.Utf8.{IsChar, as_bytes, from_utf8_lossy}
use zsync.Clipboard.{Item}
use zsync.Clipboard.File.{Files}
use zsync.Clipboard.Uris.{file_uri, is_file, read_file_item, item_from_file_text}
use zsync.Clipboard.Uris.RoundTrip.{item_from_file_text-file_uri}
use zsync.Clipboard.Native.{Desktop, first_of, of_targets, of_text, wayland_get, offer, wayland_set}

abbrev pub uri_list : Text
uri_list = codes "text/uri-list"

-- The desktop once a list of URIs was copied, and whether that succeeded.
abbrev pub copy_uris : {O : Type 0} → Desktop O → O → Bytes → O × Bool
copy_uris desktop os bytes = desktop.run_in os (codes "wl-copy") (codes "-t" ∷ uri_list ∷ []) bytes

-- What the manual of wl-clipboard says of a content that is copied with a type: the type is listed,
-- and the content is pasted as it is.
pub record Pastes {O : Type 0} (desktop : Desktop O) : Type 0 where
  pub lists :
      (os : O) (bytes : Bytes)
      → (copy_uris desktop os bytes).1 ≡ true
      → (list : Bytes) × (desktop.run_out
            (copy_uris desktop os bytes).0
            (codes "wl-paste")
            (codes "--list-types" ∷ [])
          ≡ some list)
        × (contains (from_utf8_lossy list) uri_list ≡ true)
  pub pastes :
      (os : O) (bytes : Bytes)
      → (copy_uris desktop os bytes).1 ≡ true
      → desktop.run_out
          (copy_uris desktop os bytes).0
          (codes "wl-paste")
          (codes "--no-newline" ∷ codes "-t" ∷ uri_list ∷ [])
        ≡ some bytes

module _ (sha256 : Bytes → Bytes) (files : Files) where
  -- The files of a list of URIs come before all else.
  of_targets-uris :
      (list : Text) (fetch : Text → Option Bytes) (b : Bytes) (item : Item)
      → contains list (codes "text/uri-list") ≡ true
      → fetch (codes "text/uri-list") ≡ some b
      → item_from_file_text files sha256 b ≡ some item
      → of_targets sha256 files list fetch ≡ some item
  unfolding of_targets
  of_targets-uris list fetch b item listed fetched read =
      rw (listed, fetched, of_targets, read) refl

  -- On a desktop that lists and pastes what is copied with a type, as Pastes says, an item with a
  -- name has been put on the clipboard, whose path is that of a file and is its canonical one, an
  -- absolute path of Unicode characters. Then the item that is read from the clipboard is the one
  -- that the file gives, where that gives one.
  pub wayland_get-wayland_set :
      {O : Type 0} (desktop : Desktop O) (canonicalize : Text → Option Text) (os : O)
      (item got : Item) (content : Bytes)
      → Pastes desktop
      → (wayland_set canonicalize desktop files os item).1 ≡ true
      → is_empty item.name ≡ false
      → canonicalize item.path ≡ some item.path
      → All IsChar item.path
      → starts_with item.path (codes "/") ≡ true
      → lookup item.path files ≡ some content
      → read_file_item files sha256 item.path ≡ some got
      → wayland_get sha256 files desktop (wayland_set canonicalize desktop files os item).0
        ≡ some got
  unfolding wayland_set wayland_get
  wayland_get-wayland_set {O} desktop canonicalize os item got content p done named canonical chars
        absolute there read =
      let exists : is_file files item.path ≡ true =
        ap (λ o. elim o [ none ↦ false | some _ ↦ true ]) there in
      let offered : offer canonicalize files item ≡ (codes "-t" ∷ uri_list ∷ [], uris) =
        (rw (named, offer, exists) refl) in
      let copied : wayland_set canonicalize desktop files os item ≡ copied_uris =
        ap (λ o. desktop.run_in os (codes "wl-copy") o.0 o.1) offered in
      let done' : copied_uris.1 ≡ true = sym (ap (λ c. c.1) copied) ∙ done in
      let (list, listed, has) = p.lists os uris done' in
      ap (λ c. wayland_get sha256 files desktop c.0) copied
      ∙ rw (listed, wayland_get)
          (ap
            (λ o. first_of o (
              of_text sha256 files
                (desktop.run_out copied_uris.0 (codes "wl-paste") (codes "--no-newline" ∷ []))))
            (of_targets-uris (from_utf8_lossy list) fetch uris got has (p.pastes os uris done') (
              item_from_file_text-file_uri files sha256 canonicalize item.path item.path content
                canonical chars absolute there
              ∙ read)))
    where
      uris : Bytes
      uris = as_bytes (file_uri canonicalize item.path)

      copied_uris : O × Bool
      copied_uris = copy_uris desktop os uris

      fetch : Text → Option Bytes
      fetch mime =
          desktop.run_out copied_uris.0 (codes "wl-paste")
            (codes "--no-newline" ∷ codes "-t" ∷ mime ∷ [])

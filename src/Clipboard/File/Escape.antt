-- ===== src/Clipboard/File/Escape.antt =====
-- Where the file of a clip with a name is written.
use zsync.Base.{
  if◌then◌else◌, is_empty, Bytes, Text, codes, text_eq, starts_with, nat_eq, ok, ◌≡◌, refl, sym, ap,
  ◌∙◌, ◌≢◌, Bool, true, false, not, Option, some, [], ◌∷◌,
}
use zsync.Base.Map.{lookup, retain, eq_refl}
use zsync.Protocol.{Json}
use zsync.Clipboard.{Item}
use zsync.Protocol.Mime.{ext_for_mime}
use zsync.Clipboard.File.{
  is_dropped, is_stale, Files, FileBackend, Current, path_join, stable, meta_path, drop_dir, tmp_of,
  write_atomic, write_offer, set_stable, file_set,
}
use zsync.Clipboard.File.Writes.{
  all_written_lem, lookup-write_atomic, lookup-write_current, file_set_done,
}

joined : (a name : Text) → starts_with name (codes "/") ≡ true → path_join a name ≡ name
joined a name h = rw (h, path_join) refl

named : (name : Text) → starts_with name (codes "/") ≡ true → is_empty name ≡ false
named [] h = absurd (cc)
named (c ∷ s) h = refl

module _ (allows : Text → Bool) where
  -- An absolute name is the path that is written.
  lookup-write_offer :
      (files : Files) (item : Item) (dir ext : Text)
      → starts_with item.name (codes "/") ≡ true
      → (write_offer allows files item dir ext).1 ≡ true
      → lookup item.name (write_offer allows files item dir ext).0 ≡ some item.content
  unfolding write_offer
  lookup-write_offer files item dir ext absolute h =
      ap (λ o. lookup item.name o.0) shape
      ∙ lookup-write_atomic allows files item.name item.name item.content
          (sym (ap (λ o. o.1) shape) ∙ h)
      ∙ rw (eq_refl item.name) refl
    where
      at : Text → Files × Bool × Text
      at dest = (
        (write_atomic allows files dest item.content).0,
        (write_atomic allows files dest item.content).1,
        dest,
      )

      shape : write_offer allows files item dir ext ≡ at item.name
      shape =
          ap
            (λ e.
              if e then (files, true, stable dir ext) else at (path_join (drop_dir dir) item.name))
            (named item.name absolute)
          ∙ ap at (joined (drop_dir dir) item.name absolute)

  module _ (codec : Json Current) (canonicalize : Text → Option Text) (sha256 : Bytes → Bytes) where
    lookup-set_stable :
        (b : FileBackend) (files : Files) (item stored : Item) (mime h : Text)
        → (set_stable allows codec canonicalize sha256 b files item mime h).1 ≡ ok stored
        → starts_with item.name (codes "/") ≡ true
        → meta_path b.dir ≢ item.name
        → tmp_of (meta_path b.dir) ≢ item.name
        → lookup item.name (set_stable allows codec canonicalize sha256 b files item mime h).0.files
          ≡ some item.content
    unfolding set_stable
    lookup-set_stable b files item stored mime h done absolute other other_tmp =
        let (stable_there, offer_there, meta_there, same, _) =
          all_written_lem _ _ _ _ _ _ stored done in
        ap (λ c. lookup item.name c.files) same
        ∙ lookup-write_current allows codec canonicalize sha256 b offered.0 _ item.name meta_there
            other other_tmp
        ∙ lookup-write_offer cleared item b.dir (ext_for_mime mime) absolute offer_there
      where
        cleared : Files
        cleared =
            retain (λ p _. not (is_dropped b.dir p))
              (retain (λ p _. not (is_stale b.dir (ext_for_mime mime) p))
                (write_atomic allows files (stable b.dir (ext_for_mime mime)) item.content).0)

        offered : Files × Bool × Text
        offered = write_offer allows cleared item b.dir (ext_for_mime mime)

    -- The file of a clip whose name is an absolute path, which is neither that of the metadata nor
    -- of its temporary file, is written to that path, wherever it is, when `set` succeeds.
    pub lookup-file_set :
        (b : FileBackend) (item stored : Item)
        → (file_set allows codec canonicalize sha256 b item).1 ≡ ok stored
        → starts_with item.name (codes "/") ≡ true
        → meta_path b.dir ≢ item.name
        → tmp_of (meta_path b.dir) ≢ item.name
        → lookup item.name (file_set allows codec canonicalize sha256 b item).0.files
          ≡ some item.content
    lookup-file_set b item stored done absolute other other_tmp =
        let (_, same) = file_set_done allows codec canonicalize sha256 b item stored done in
        ap (λ o. lookup item.name o.0.files) same
        ∙ lookup-set_stable b _ item stored _ _ (sym (ap (λ o. o.1) same) ∙ done) absolute other
            other_tmp

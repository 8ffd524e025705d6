-- ===== src/Clipboard/File/Kept.antt =====
-- What `get` returns after `set`, before and after the backend is opened again.
use zsync.Base.{
  if◌then◌else◌, Bool-cases, Option-cases, length, is_empty, all, Bytes, Text, text_beq_iff,
  text_eq, Result, ◌==◌, nat_eq, ok, ◌≡◌, refl, sym, ap, ap₂, subst, ◌∙◌, ◌≢◌, inl, inr, Bool, true,
  false, not, Option, none, some, [], ◌∷◌, arith,
}
use zsync.Base.Map.{lookup, retain, eq_refl}
use zsync.Protocol.{Json, hash}
use zsync.Clipboard.{Item}
use zsync.Clipboard.Names.{IsPlain, plain-relative}
use zsync.Protocol.Mime.{detect_mime, ext_for_mime}
use zsync.Group.{is_ascii_hexdigit}
use zsync.Clipboard.File.{
  is_dropped, is_stale, Files, FileBackend, Current, path_join, stable, objects, meta_path,
  drop_dir, tmp_of, write_atomic, write_offer, write_current, set_stable, file_set, file_get,
  open_backend,
}
use zsync.Clipboard.File.Writes.{
  differ, all_written_lem, lookup-write_atomic, lookup-write_current, file_set_done,
}
use zsync.Clipboard.File.Paths.{
  object, stable-object, meta_path-object, offer-object, object-is_stale, object-is_dropped,
  tmp_of-object,
}

lookup-retain_kept :
    (p : Text → Bytes → Bool) (k : Text) (files : Files)
    → ((v : Bytes) → p k v ≡ true)
    → lookup k (retain p files) ≡ lookup k files
unfolding lookup retain
lookup-retain_kept p k [] all_kept = refl
lookup-retain_kept p k ((j, v) ∷ files) all_kept = elim (Bool-cases (j == k)) [
  | inl same ↦ ground (arith, all_kept v, (text_beq_iff j k).0 same)
  | inr other ↦ ground (arith, other, lookup-retain_kept p k files all_kept)
]

-- The item that the files and the metadata of a backend have.
abbrev item_at : Current → Bytes → Item
item_at cur content = record {
  mime = cur.mime;
  content = content;
  hash = cur.hash;
  path = cur.path;
  name = cur.name;
}

module _ (allows : Text → Bool) where
  write_atomic_keeps :
      (files : Files) (path k : Text) (content : Bytes)
      → (write_atomic allows files path content).1 ≡ true
      → path ≢ k
      → tmp_of path ≢ k
      → lookup k (write_atomic allows files path content).0 ≡ lookup k files
  write_atomic_keeps files path k content h other other_tmp =
      lookup-write_atomic allows files path k content h
      ∙ rw (differ path k other, differ (tmp_of path) k other_tmp) refl

  module _ (dir h : Text) (hex : all is_ascii_hexdigit h ≡ true) (given : is_empty h ≡ false) where
    abbrev k : Text
    k = object dir h hex given

    write_offer_keeps :
        (files : Files) (item : Item) (ext : Text)
        → IsPlain item.name
        → (write_offer allows files item dir ext).1 ≡ true
        → lookup k (write_offer allows files item dir ext).0 ≡ lookup k files
    unfolding write_offer
    write_offer_keeps files item ext plain done = elim (Bool-cases (is_empty item.name)) [
      | inl unnamed ↦ rw (unnamed, write_offer) refl
      | inr named ↦
          rw (named, write_offer)
            (write_atomic_keeps files (path_join (drop_dir dir) item.name) k item.content
              (rw (named, write_offer) at done)
              (offer-object dir h hex given item.name (plain-relative item.name plain))
              (tmp_of-object dir h hex given _))
    ]

    cleared_keeps :
        (files : Files) (ext : Text)
        → lookup k (
            retain (λ p _. not (is_dropped dir p)) (retain (λ p _. not (is_stale dir ext p)) files))
          ≡ lookup k files
    cleared_keeps files ext =
        lookup-retain_kept (λ p _. not (is_dropped dir p)) k _
          (λ v. ap not (object-is_dropped dir h hex given))
        ∙ lookup-retain_kept (λ p _. not (is_stale dir ext p)) k files
            (λ v. ap not (object-is_stale dir h hex given ext))

  module _ (codec : Json Current) (canonicalize : Text → Option Text) (sha256 : Bytes → Bytes) where
    -- The metadata that was written is the current one, and is in its file.
    write_current_done :
        (b : FileBackend) (files : Files) (cur : Current)
        → (write_current allows codec canonicalize sha256 b files cur).1 ≡ ok tt
        → let b' = (write_current allows codec canonicalize sha256 b files cur).0 in
          (b'.dir ≡ b.dir)
          × (b'.cur ≡ cur)
          × ((bytes : Bytes) × (codec.to_vec cur ≡ some bytes)
              × (lookup (meta_path b.dir) b'.files ≡ some bytes))
    unfolding write_current
    write_current_done b files cur h = elim (Option-cases (codec.to_vec cur)) [
      | inl missing ↦ absurd (ground (arith, missing))
      | inr (bytes, e) ↦ elim (Bool-cases (write_atomic allows files (meta_path b.dir) bytes).1) [
        | inr failed ↦ absurd (ground (arith, e, failed))
        | inl written ↦
            rw (e, write_current, written)
              (
                refl,
                refl,
                (
                  bytes,
                  refl,
                  lookup-write_atomic allows files (meta_path b.dir) (meta_path b.dir) bytes written
                      ∙ rw (eq_refl (meta_path b.dir)) refl,
                ),
              )
      ]
    ]

    file_get_there :
        (b : FileBackend) (content : Bytes)
        → is_empty b.cur.hash ≡ false
        → lookup (path_join (objects b.dir) b.cur.hash) b.files ≡ some content
        → file_get allows codec canonicalize sha256 b ≡ ok (some (item_at b.cur content))
    unfolding file_get
    file_get_there b content given there = rw (given, file_get, there) refl

    open_backend-cur :
        (dir : Text) (files : Files) (cur : Current) (bytes : Bytes)
        → codec.to_vec cur ≡ some bytes
        → lookup (meta_path dir) files ≡ some bytes
        → open_backend allows codec canonicalize sha256 dir files
          ≡ record { dir = dir; files = files; cur = cur }
    unfolding open_backend
    open_backend-cur dir files cur bytes written there =
        rw (there, open_backend, codec.from_slice-to_vec cur bytes written) refl

    -- The backend has this item, and so does its directory.
    record IsStored (dir : Text) (b : FileBackend) (stored : Item) : Type 0 where
      dir_same : b.dir ≡ dir
      current : item_at b.cur stored.content ≡ stored
      there : lookup (path_join (objects b.dir) b.cur.hash) b.files ≡ some stored.content
      bytes : Bytes
      encoded : codec.to_vec b.cur ≡ some bytes
      written : lookup (meta_path b.dir) b.files ≡ some bytes

    set_stable-IsStored :
        (b : FileBackend) (files : Files) (item stored : Item) (mime h : Text)
        → all is_ascii_hexdigit stored.hash ≡ true
        → is_empty stored.hash ≡ false
        → (set_stable allows codec canonicalize sha256 b files item mime h).1 ≡ ok stored
        → IsPlain item.name
        → lookup (path_join (objects b.dir) h) files ≡ some item.content
        → IsStored b.dir (set_stable allows codec canonicalize sha256 b files item mime h).0 stored
    unfolding set_stable
    set_stable-IsStored b files item stored mime h digits some_digit done plain there =
        let (stable_there, offer_there, meta_there, same, item_same) =
          all_written_lem _ _ _ _ _ _ stored done in
        let (dir_same, cur_same, (bytes, encoded, in_file)) =
          write_current_done b offered.0 cur meta_there in
        let hash_same = ap (λ i. i.hash) item_same in
        let hex = ap (all is_ascii_hexdigit) hash_same ∙ digits in
        let given = ap is_empty hash_same ∙ some_digit in
        let kept : lookup k_ last.0.files ≡ some item.content =
          lookup-write_current allows codec canonicalize sha256 b offered.0 cur k_ meta_there
            (meta_path-object b.dir h hex given) (tmp_of-object b.dir h hex given _)
          ∙ write_offer_keeps b.dir h hex given cleared item (ext_for_mime mime) plain offer_there
          ∙ cleared_keeps b.dir h hex given stable_files.0 (ext_for_mime mime)
          ∙ write_atomic_keeps files (stable b.dir (ext_for_mime mime)) k_ item.content stable_there
              (stable-object b.dir h hex given (ext_for_mime mime))
              (tmp_of-object b.dir h hex given _)
          ∙ there in
        let content_same = ap (λ i. i.content) item_same in
        subst (λ c. IsStored b.dir c stored) (sym same)
          (record {
            dir_same = dir_same;
            current = ap₂ item_at cur_same (sym content_same) ∙ item_same;
            there =
                ap₂ (λ d c. lookup (path_join (objects d) c.hash) last.0.files) dir_same cur_same
                ∙ kept
                ∙ ap some content_same;
            bytes = bytes;
            encoded = ap codec.to_vec cur_same ∙ encoded;
            written = ap (λ d. lookup (meta_path d) last.0.files) dir_same ∙ in_file;
          })
      where
        k_ : Text
        k_ = path_join (objects b.dir) h

        stable_files : Files × Bool
        stable_files = write_atomic allows files (stable b.dir (ext_for_mime mime)) item.content

        cleared : Files
        cleared =
            retain (λ p _. not (is_dropped b.dir p))
              (retain (λ p _. not (is_stale b.dir (ext_for_mime mime) p)) stable_files.0)

        offered : Files × Bool × Text
        offered = write_offer allows cleared item b.dir (ext_for_mime mime)

        cur : Current
        cur = record {
          hash = h;
          mime = mime;
          size = length item.content;
          path = elim (canonicalize offered.2) [ none ↦ offered.2 | some p ↦ p ];
          name = item.name;
        }

        last : FileBackend × Result (Unit {0}) (Unit {0})
        last = write_current allows codec canonicalize sha256 b offered.0 cur

    stored_read :
        (dir : Text) (b : FileBackend) (stored : Item)
        → IsStored dir b stored
        → is_empty stored.hash ≡ false
        → file_get allows codec canonicalize sha256 b ≡ ok (some stored)
    stored_read dir b stored s given =
        file_get_there b stored.content (ap (λ i. is_empty i.hash) s.current ∙ given) s.there
        ∙ ap (λ i. ok (some i)) s.current

    opened_again :
        (dir : Text) (b : FileBackend) (stored : Item)
        → IsStored dir b stored
        → open_backend allows codec canonicalize sha256 dir b.files ≡ b
    opened_again dir b stored s =
        ap (λ d. open_backend allows codec canonicalize sha256 d b.files) (sym s.dir_same)
        ∙ open_backend-cur b.dir b.files b.cur s.bytes s.encoded s.written

    -- After a call of `set` that succeeds with an item, whose name has no slash, backslash or NUL and
    -- whose hash is not empty and written in hexadecimal digits, `get` returns that item, and so it
    -- does when the backend is opened again from the files.
    pub file_get-file_set :
        (b : FileBackend) (item stored : Item)
        → let b' = (file_set allows codec canonicalize sha256 b item).0 in
          (file_set allows codec canonicalize sha256 b item).1 ≡ ok stored
          → IsPlain item.name
          → all is_ascii_hexdigit stored.hash ≡ true
          → is_empty stored.hash ≡ false
          → (file_get allows codec canonicalize sha256 b' ≡ ok (some stored))
            × (file_get allows codec canonicalize sha256
                  (open_backend allows codec canonicalize sha256 b.dir b'.files)
                ≡ ok (some stored))
    file_get-file_set b item stored done plain hex given =
        let (written, same) = file_set_done allows codec canonicalize sha256 b item stored done in
        let done' = sym (ap (λ o. o.1) same) ∙ done in
        let s : IsStored b.dir (file_set allows codec canonicalize sha256 b item).0 stored =
          subst (λ o. IsStored b.dir o.0 stored) (sym same)
            (set_stable-IsStored b object.0 item stored mime h hex given done' plain (
              lookup-write_atomic allows b.files path path item.content written
              ∙ rw (eq_refl path) refl)) in
        let read = stored_read b.dir _ stored s given in
        (
          read,
          ap (file_get allows codec canonicalize sha256) (opened_again b.dir _ stored s) ∙ read,
        )
      where
        h : Text
        h = if is_empty item.hash then hash sha256 item.content else item.hash

        mime : Text
        mime = if is_empty item.mime then detect_mime item.content else item.mime

        path : Text
        path = path_join (objects b.dir) h

        object : Files × Bool
        object = write_atomic allows b.files path item.content

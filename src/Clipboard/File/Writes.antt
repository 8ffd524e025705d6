-- ===== src/Clipboard/File/Writes.antt =====
-- What a write of a file leaves under a path.
use zsync.Base.{
  ltb, if◌then◌else◌, Bool-cases, Option-cases, length, is_empty, Bytes, Text, text_beq,
  text_beq_iff, text_eq, Result, ◌==◌, nat_eq, ok, err, ◌≡◌, refl, ap, ◌∙◌, ◌≢◌, inl, inr, Bool,
  true, false, Option, none, some, arith,
}
use zsync.Base.Map.{lookup, remove, lookup-insert, lookup-remove}
use zsync.Protocol.{Json, hash, max_clip}
use zsync.Clipboard.{Item}
use zsync.Protocol.Mime.{detect_mime}
use zsync.Clipboard.File.{
  all_written, Files, FileBackend, Current, path_join, objects, meta_path, tmp_of, write_atomic,
  write_current, set_stable, file_set,
}

pub differ : (a b : Text) → a ≢ b → text_beq a b ≡ false
differ a b h = elim (Bool-cases (text_beq a b)) [
  | inl same ↦ absurd (h ((text_beq_iff a b).0 same))
  | inr other ↦ other
]

pub all_written_lem :
    (w o : Bool) (x y : FileBackend) (last : FileBackend × Result (Unit {0}) (Unit {0}))
    (item stored : Item)
    → (all_written w o x y last item).1 ≡ ok stored
    → (w ≡ true)
      × (o ≡ true)
      × (last.1 ≡ ok tt)
      × ((all_written w o x y last item).0 ≡ last.0)
      × (item ≡ stored)
all_written_lem false o x y last item stored h = absurd (cc)
all_written_lem true false x y last item stored h = absurd (cc)
all_written_lem true true x y (b, ok t) item stored h = (refl, refl, refl, refl, cc)
all_written_lem true true x y (b, err e) item stored h = absurd (cc)

module _ (allows : Text → Bool) where
  -- After a write that succeeded the path has the content, and its temporary file is gone.
  pub lookup-write_atomic :
      (files : Files) (path k : Text) (content : Bytes)
      → (write_atomic allows files path content).1 ≡ true
      → lookup k (write_atomic allows files path content).0
        ≡ (if path == k then some content else if tmp_of path == k then none else lookup k files)
  unfolding write_atomic
  lookup-write_atomic files path k content h = elim (Bool-cases (allows (tmp_of path))) [
    | inr no_tmp ↦ absurd (ground (arith, no_tmp))
    | inl tmp ↦ elim (Bool-cases (allows path)) [
      | inr no_path ↦ absurd (ground (arith, tmp, no_path))
      | inl given ↦
          rw (tmp, given)
            (lookup-insert path k content (remove (tmp_of path) files)
              ∙ ap (λ o. if path == k then some content else o)
                  (lookup-remove (tmp_of path) k files))
    ]
  ]

  module _ (codec : Json Current) (canonicalize : Text → Option Text) (sha256 : Bytes → Bytes) where
    pub lookup-write_current :
        (b : FileBackend) (files : Files) (cur : Current) (k : Text)
        → (write_current allows codec canonicalize sha256 b files cur).1 ≡ ok tt
        → meta_path b.dir ≢ k
        → tmp_of (meta_path b.dir) ≢ k
        → lookup k (write_current allows codec canonicalize sha256 b files cur).0.files
          ≡ lookup k files
    unfolding write_current
    lookup-write_current b files cur k h other other_tmp = elim (Option-cases (codec.to_vec cur)) [
      | inl missing ↦ absurd (ground (arith, missing))
      | inr (bytes, e) ↦ elim (Bool-cases (write_atomic allows files (meta_path b.dir) bytes).1) [
        | inr failed ↦ absurd (ground (arith, e, failed))
        | inl written ↦
            rw (e, write_current, written)
              (lookup-write_atomic files (meta_path b.dir) k bytes written
                ∙ rw
                    (
                      differ (meta_path b.dir) k other,
                      differ (tmp_of (meta_path b.dir)) k other_tmp,
                    )
                    refl)
      ]
    ]

    -- A call of `set` that succeeds has written the object, and goes on with the stable file.
    pub file_set_done :
        (b : FileBackend) (item stored : Item)
        → (file_set allows codec canonicalize sha256 b item).1 ≡ ok stored
        → let h = if is_empty item.hash then hash sha256 item.content else item.hash in
          let mime = if is_empty item.mime then detect_mime item.content else item.mime in
          let object = write_atomic allows b.files (path_join (objects b.dir) h) item.content in
          (object.1 ≡ true)
          × (file_set allows codec canonicalize sha256 b item
              ≡ set_stable allows codec canonicalize sha256 b object.0 item mime h)
    unfolding file_set
    file_set_done b item stored done = elim (Bool-cases (ltb max_clip (length item.content))) [
      | inl big ↦ absurd (ground (arith, big))
      | inr fits ↦ elim (Bool-cases object.1) [
        | inr failed ↦ absurd (ground (arith, fits, failed))
        | inl written ↦ (written, (rw (fits, file_set, written) refl))
      ]
    ]
      where
        object : Files × Bool
        object =
            write_atomic allows b.files
              (path_join (objects b.dir)
                (if is_empty item.hash then hash sha256 item.content else item.hash))
              item.content

-- ===== src/Clipboard/File.antt =====
-- src/clipboard/file.rs: the backend of a machine without a clipboard, which keeps the item in
-- files. `files` has the content of every file of the machine by its path; `allows` says which
-- paths can be written; `canonicalize` is `std::fs::canonicalize`. Directories are left out: those
-- that a write needs are there.
pub mod Writes
pub mod Paths
pub mod Escape
pub mod Kept
pub mod Examples
use zsync.Base.{
  ltb, leb, eqb, if◌then◌else◌, ltb→lt, lt→ltb, le→ltb, leb→le, eqb_iff, Bool-cases, Option-cases,
  length, get_or, take, drop, replicate, is_empty, any, all, keep, All, length-append, length-drop,
  length-take, take-append, drop-append, take-append-drop, take-length, any-append, length-keep-le,
  Bytes, Text, codes, text_beq, text_beq_iff, text_eq, starts_with, utf8_width, text_len, ◌>>=◌,
  ◌>>◌, fail_if, or_fail, Result-cases, Result, Eq, ◌==◌, nat_eq, ok, err, ℕ, zero, suc, ◌+◌, ◌-◌,
  ◌*◌, ◌/◌, ◌%◌, ◌^◌, ◌≤◌, ◌<◌, min, max, ◌≡◌, refl, sym, ap, ap₂, ◌∙◌, subst, ◌≢◌, ◌↔◌, ◌⊎◌, inl,
  inr, Bool, true, false, not, ◌&&◌, ◌||◌, Option, none, some, List, [], ◌∷◌, ◌++◌, map,
  append_assoc, append-nil, arith,
}
use zsync.Base.Map.{
  Map, lookup, insert, remove, retain, eq_refl, lookup-insert, lookup-remove, Distinct,
}
use zsync.Base.Paths.{file_name}
use zsync.Protocol.{Json, max_clip, hash}
use zsync.Protocol.Mime.{detect_mime, ext_for_mime}
use zsync.Clipboard.{Item, Backend}

abbrev pub Files : Type 0
Files = Map Text Bytes

pub record Current : Type 0 where
  pub hash : Text
  pub mime : Text
  pub size : ℕ
  pub path : Text
  pub name : Text

pub record FileBackend : Type 0 where
  pub dir : Text
  pub files : Files
  pub cur : Current

-- `Path::join`: an absolute path replaces the first one.
abbrev pub path_join : Text → Text → Text
path_join a b = if starts_with b (codes "/") then b else a ++ codes "/" ++ b

abbrev pub clips : Text → Text
clips dir = dir ++ codes "/clips"

abbrev pub meta_path : Text → Text
meta_path dir = clips dir ++ codes "/current.json"

abbrev pub objects : Text → Text
objects dir = clips dir ++ codes "/objects"

-- The file `current` with this extension.
abbrev pub stable : Text → Text → Text
stable dir ext = clips dir ++ codes "/current" ++ ext

abbrev pub drop_dir : Text → Text
drop_dir dir = clips dir ++ codes "/drop"

-- `with_file_name`, for a path without a slash at its end.
abbrev pub tmp_of : Text → Text
tmp_of path = elim (file_name path) [
  | none ↦ path ++ codes "/.tmp"
  | some n ↦ take (length path - length n) path ++ n ++ codes ".tmp"
]

-- The content of `b` behind the prefix `a`.
abbrev pub stripped : Text → Text → Option Text
stripped [] b = some b
stripped (c ∷ a) [] = none
stripped (c ∷ a) (d ∷ b) = if eqb c d then stripped a b else none

-- An entry of the directory of the clips whose name begins with `current`, of which only that with
-- this extension and the metadata are kept.
abbrev pub is_stale : Text → Text → Text → Bool
is_stale dir ext path = elim (stripped (clips dir ++ codes "/current") path) [
  | none ↦ false
  | some rest ↦ not (any (λ c. c == b'/') rest) && not (rest == ext) && not (rest == codes ".json")
]

abbrev pub is_dropped : Text → Text → Bool
is_dropped dir path = elim (stripped (drop_dir dir ++ codes "/") path) [
  | none ↦ false
  | some _ ↦ true
]

-- The `?` behind the writes of the stable file, of the offered one and of the metadata.
abbrev pub all_written :
    Bool
    → Bool
    → FileBackend
    → FileBackend
    → FileBackend × Result (Unit {0}) (Unit {0})
    → Item
    → FileBackend × Result (Unit {0}) Item
all_written false offered x y last item = (x, err tt)
all_written true false x y last item = (y, err tt)
all_written true true x y (b, done) item = (b, (done >>= λ _. ok item))

module _ (allows : Text → Bool) where
  unfoldable pub write_atomic : Files → Text → Bytes → Files × Bool
  write_atomic files path content =
      if not (allows (tmp_of path))
      then (files, false)
      else if not (allows path)
      then (insert (tmp_of path) content files, false)
      else (insert path content (remove (tmp_of path) files), true)

  -- The end of `set`: the file that is offered under its name, or the stable one.
  unfoldable pub write_offer : Files → Item → Text → Text → Files × Bool × Text
  write_offer files item dir ext =
      let dest = path_join (drop_dir dir) item.name in
      let (files', written) = write_atomic files dest item.content in
      if is_empty item.name then (files, true, stable dir ext) else (files', written, dest)

  module _ (codec : Json Current) (canonicalize : Text → Option Text) (sha256 : Bytes → Bytes) where
    -- The metadata is written, and becomes the current one.
    unfoldable pub write_current :
        FileBackend → Files → Current → FileBackend × Result (Unit {0}) (Unit {0})
    write_current b files cur = elim (codec.to_vec cur) [
      | none ↦ (record b { files = files }, err tt)
      | some bytes ↦
          let (files', written) = write_atomic files (meta_path b.dir) bytes in
          if written
          then (record b { files = files'; cur = cur }, ok tt)
          else (record b { files = files' }, err tt)
    ]

    -- The part of `set` behind the write of the object, with the content type and the hash.
    unfoldable pub set_stable :
        FileBackend → Files → Item → Text → Text → FileBackend × Result (Unit {0}) Item
    set_stable b files item mime h =
        let ext = ext_for_mime mime in
        let (written_files, written) = write_atomic files (stable b.dir ext) item.content in
        let cleared =
          retain (λ p _. not (is_dropped b.dir p))
            (retain (λ p _. not (is_stale b.dir ext p)) written_files) in
        let (offered, offer_written, offer) = write_offer cleared item b.dir ext in
        let abs : Text = elim (canonicalize offer) [ none ↦ offer | some p ↦ p ] in
        let last = write_current b offered (record {
          hash = h;
          mime = mime;
          size = length item.content;
          path = abs;
          name = item.name;
        }) in
        all_written written offer_written (record b { files = written_files })
          (record b { files = offered }) last
          (record { mime = mime; content = item.content; hash = h; path = abs; name = item.name })

    unfoldable pub file_set : FileBackend → Item → FileBackend × Result (Unit {0}) Item
    file_set b item =
        let mime = if is_empty item.mime then detect_mime item.content else item.mime in
        let h = if is_empty item.hash then hash sha256 item.content else item.hash in
        let (files, written) = write_atomic b.files (path_join (objects b.dir) h) item.content in
        if ltb max_clip (length item.content)
        then (b, err tt)
        else if not written
        then (record b { files = files }, err tt)
        else set_stable b files item mime h

    -- A file that is not there is no item; other errors of the read are left out.
    unfoldable pub file_get : FileBackend → Result (Unit {0}) (Option Item)
    file_get b =
        if is_empty b.cur.hash
        then ok none
        else (elim (lookup (path_join (objects b.dir) b.cur.hash) b.files) [
          | none ↦ ok none
          | some content ↦ ok (
              some (record {
                mime = b.cur.mime;
                content = content;
                hash = b.cur.hash;
                path = b.cur.path;
                name = b.cur.name;
              }))
        ])

    unfoldable pub file_backend : Backend FileBackend
    unfolding file_get file_set
    file_backend = record {
      get = file_get;
      set = file_set;
      headless = λ b. true;
      current_path = λ b. b.cur.path;
    }

    abbrev default_current : Current
    default_current = record { hash = []; mime = []; size = 0; path = []; name = [] }

    unfoldable pub open_backend : Text → Files → FileBackend
    open_backend dir files = record {
      dir = dir;
      files = files;
      cur = elim (lookup (meta_path dir) files) [
        | none ↦ default_current
        | some bytes ↦ elim (codec.from_slice bytes) [ none ↦ default_current | some cur ↦ cur ]
      ];
    }

-- ===== src/Cli/Cwd.antt =====
-- Where a paste writes its file.
use zsync.Base.{
  All-append, if◌then◌else◌, Bool-cases, Option-cases, Bytes, Text, codes, text_eq, Result-cases,
  nat_eq, ap, ◌⊎◌, ◌≡◌, refl, inl, inr, Bool, true, false, not, ◌&&◌, ◌||◌, Option, ◌++◌, arith,
}
use zsync.Base.Map.{insert}
use zsync.Protocol.Mime.{ext_for_mime}
use zsync.Clipboard.{sanitize_basename, clip_filename}
use zsync.Clipboard.File.{Files, path_join}
use zsync.Clipboard.Names.{IsPlain, sanitize_basename_safe, plain-relative}
use zsync.Daemon.Dispatch.{Response}
use zsync.Cli.{Shell}
use zsync.Cli.Paste.{
  text_or_empty, file_content, is_file_clip, or_false, write_clip_file, paste_file, write_paste,
}

if-case {ℓ} : (P : Text → Type ℓ) (b : Bool) (s t : Text) → P s → P t → P (if b then s else t)
if-case P true s t hs ht = hs
if-case P false s t hs ht = ht

-- The extensions that a name can get.
ext_for_mime-cases {ℓ} :
    (P : Text → Type ℓ) (mime : Text)
    → P (codes ".png")
    → P (codes ".jpg")
    → P (codes ".gif")
    → P (codes ".webp")
    → P (codes ".pdf")
    → P (codes ".zip")
    → P (codes ".txt")
    → P (codes ".html")
    → P (codes ".bin")
    → P (ext_for_mime mime)
unfolding ext_for_mime
ext_for_mime-cases P mime h1 h2 h3 h4 h5 h6 h7 h8 h9 = if-case P _ _ _ h1 (
    if-case P _ _ _ h2 (
      if-case P _ _ _ h3 (
        if-case P _ _ _ h4
          (if-case P _ _ _ h5 (if-case P _ _ _ h6 (if-case P _ _ _ h7 (if-case P _ _ _ h8 h9)))))))

ext_for_mime-IsPlain : (mime : Text) → IsPlain (ext_for_mime mime)
ext_for_mime-IsPlain mime =
    ext_for_mime-cases IsPlain mime (ground arith) (ground arith) (ground arith) (ground arith)
      (ground arith) (ground arith) (ground arith) (ground arith) (ground arith)

clip_filename-IsPlain :
    (name mime : Text) (data_bytes : Bytes) → IsPlain (clip_filename name mime data_bytes)
unfolding clip_filename
clip_filename-IsPlain name mime data_bytes = elim (Option-cases (sanitize_basename name)) [
  | inl unnamed ↦
      rw (clip_filename, unnamed)
        (All-append _ (codes "zsync-clip") (ext_for_mime _) (ground arith) (ext_for_mime-IsPlain _))
  | inr (n, clean) ↦ rw (clip_filename, clean) (sanitize_basename_safe name n clean).2
]

path_join-plain : (cwd n : Text) → IsPlain n → path_join cwd n ≡ cwd ++ codes "/" ++ n
path_join-plain cwd n h = rw (plain-relative n h) refl

-- The files are what they were, or one was written, in the directory itself under a plain name.
abbrev pub OneWritten : Text → Files → Files → Type 0
OneWritten cwd files files' =
    (files' ≡ files)
    ⊎ ((n : Text) × (data_bytes : Bytes) × IsPlain n
        × (files' ≡ insert (cwd ++ codes "/" ++ n) data_bytes files))

module _ (allows : Text → Bool) (canonicalize : Text → Option Text) (cwd : Text) where
  write_clip_file-OneWritten :
      (files : Files) (name mime : Text) (data_bytes : Bytes)
      → OneWritten cwd files (write_clip_file allows canonicalize cwd files name mime data_bytes).0
  unfolding write_clip_file
  write_clip_file-OneWritten files name mime data_bytes = elim (Bool-cases (allows dest)) [
    | inr denied ↦ rw (write_clip_file, denied) (inl refl)
    | inl allowed ↦
        rw (write_clip_file, allowed)
          (inr (
            name',
            data_bytes,
            plain,
            ap (λ d. insert d data_bytes files) (path_join-plain cwd name' plain),
          ))
  ]
    where
      name' : Text
      name' = clip_filename name mime data_bytes

      dest : Text
      dest = path_join cwd name'

      plain : IsPlain name'
      plain = clip_filename-IsPlain name mime data_bytes

  paste_file-OneWritten :
      (sh : Shell) (resp : Response) (body : Bytes)
      → OneWritten cwd sh.files (paste_file allows canonicalize cwd sh resp body).0.files
  unfolding paste_file
  paste_file-OneWritten sh resp body = elim (Result-cases (file_content sh.files resp body)) [
    | inl (e, bad) ↦ rw (paste_file, bad) (inl refl)
    | inr (data_bytes, good) ↦
        let out =
          write_clip_file allows canonicalize cwd sh.files (text_or_empty resp.name)
            (text_or_empty resp.mime) data_bytes in
        let kept =
          write_clip_file-OneWritten sh.files (text_or_empty resp.name) (text_or_empty resp.mime)
            data_bytes in
        elim (Option-cases out.1) [
          | inl unwritten ↦ rw (paste_file, good, unwritten) kept
          | inr (path, there) ↦ rw (paste_file, good, there) kept
        ]
  ]

  -- A paste leaves the files as they are, or writes one file, which stands in the current directory
  -- itself, under a name without slash, backslash and NUL, whatever name, content type and path the
  -- response has.
  pub paste_stays_in_cwd :
      (want_path want_content : Bool) (sh : Shell) (resp : Response) (body : Bytes)
      → OneWritten cwd sh.files
          (write_paste allows canonicalize cwd want_path want_content sh resp body).0.files
  unfolding write_paste
  paste_stays_in_cwd want_path want_content sh resp body =
      elim (Bool-cases (is_file_clip resp body && not want_content)) [
        | inl to_file ↦ rw (write_paste, to_file) (paste_file-OneWritten sh resp body)
        | inr to_output ↦
            elim (Bool-cases (want_path || (or_false resp.headless && not want_content))) [
              | inr printed ↦ rw (write_paste, to_output, printed) (inl refl)
              | inl as_path ↦ elim (Option-cases resp.path) [
                | inl missing ↦ rw (write_paste, to_output, as_path, missing) (inl refl)
                | inr (path, there) ↦ rw (write_paste, to_output, as_path, there) (inl refl)
              ]
            ]
      ]

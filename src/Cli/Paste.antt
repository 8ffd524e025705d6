-- ===== src/Cli/Paste.antt =====
-- src/cli.rs: what `zsync paste` does, and where it writes a file.
use zsync.Base.{
  if◌then◌else◌, length, is_empty, Bytes, Text, codes, text_eq, or_fail, Result, nat_eq, ok, err, ℕ,
  Bool, true, false, not, ◌&&◌, ◌||◌, Option, none, some, [], ◌++◌,
}
use zsync.Base.Map.{lookup, insert}
use zsync.Base.Utf8.{as_bytes}
use zsync.Protocol.Mime.{detect_mime}
use zsync.Clipboard.{Item, Backend, should_write_file, clip_filename}
use zsync.Clipboard.File.{Files, path_join}
use zsync.Net.{PeerTarget}
use zsync.Ipc.{IpcError}
use zsync.Daemon.Table.{Runtime}
use zsync.Daemon.Dispatch.{Request, Response, plain, unless_empty}
use zsync.Cli.{
  Machine, running, stopped, Shell, CliError, backend_failed, clipboard_empty, exclusive, no_data,
  unreadable, unwritten, no_path, Done, printed, roundtrip, expect_ok,
}

abbrev pub paste_request : Request
paste_request = record { action = codes "paste"; uri = none; mime = none }

abbrev pub text_or_empty : Option Text → Text
text_or_empty none = []
text_or_empty (some s) = s

-- The bytes of a file clip: the body, or the file that the response names.
unfoldable pub file_content : Files → Response → Bytes → Result CliError Bytes
file_content files resp body =
    if not (is_empty body)
    then ok body
    else (elim resp.path [ none ↦ err no_data | some p ↦ or_fail (lookup p files) unreadable ])

abbrev pub sniffed : Bytes → Text
sniffed body = if is_empty body then [] else detect_mime body

abbrev pub is_file_clip : Response → Bytes → Bool
is_file_clip resp body =
    let name = text_or_empty resp.name in
    should_write_file name (text_or_empty resp.mime) body
    || should_write_file name (sniffed body) body

abbrev pub or_false : Option Bool → Bool
or_false none = false
or_false (some b) = b

-- The response that the daemon would give for the item.
unfoldable pub response_of : {B : Type 0} → Backend B → B → Item → Response
response_of backend b item = record (plain true none) {
  mime = some item.mime;
  n = length item.content;
  path = unless_empty (backend.current_path b);
  headless = some (backend.headless b);
  name = unless_empty item.name;
}

module _ (allows : Text → Bool) (canonicalize : Text → Option Text) (cwd : Text) where
  -- The file that was written, under its canonical path.
  unfoldable pub write_clip_file : Files → Text → Text → Bytes → Files × Option Text
  write_clip_file files name mime data_bytes =
      let dest = path_join cwd (clip_filename name mime data_bytes) in
      if allows dest
      then (
        insert dest data_bytes files,
        some (elim (canonicalize dest) [ none ↦ dest | some p ↦ p ]),
      )
      else (files, none)

  unfoldable pub paste_file : Shell → Response → Bytes → Shell × Result CliError (Unit {0})
  unfolding write_clip_file file_content
  paste_file sh resp body = elim (file_content sh.files resp body) [
    | err e ↦ (sh, err e)
    | ok data_bytes ↦
        let (files, dest) =
          write_clip_file sh.files (text_or_empty resp.name) (text_or_empty resp.mime) data_bytes in
        elim dest [
          | none ↦ (record sh { files = files }, err unwritten)
          | some path ↦
              (printed (record sh { files = files }) (as_bytes (path ++ codes "\n")), ok tt)
        ]
  ]

  unfoldable pub write_paste :
      Bool → Bool → Shell → Response → Bytes → Shell × Result CliError (Unit {0})
  unfolding paste_file
  write_paste want_path want_content sh resp body =
      if is_file_clip resp body && not want_content
      then paste_file sh resp body
      else if want_path || (or_false resp.headless && not want_content)
      then (elim resp.path [
        | none ↦ (sh, err no_path)
        | some path ↦ (printed sh (as_bytes (path ++ codes "\n")), ok tt)
      ])
      else (printed sh body, ok tt)

module _ {B : Type 0} (backend : Backend B) (sha256 : Bytes → Bytes) (is_ipv6 : Text → Bool)
    (b64_decode : Text → Option Bytes) (resolve : PeerTarget → Option PeerTarget) (clipboard : Text)
    (pid : ℕ) where
  module _ (allows : Text → Bool) (canonicalize : Text → Option Text) (cwd : Text) where
    -- The end of a paste that the daemon answered.
    abbrev pub pasted :
        Shell → Bool → Bool → Runtime B × Result IpcError (Response × Bytes) → Done B
    pasted sh want_path want_content (rt, answer) = elim (expect_ok answer) [
      | err e ↦ (running rt, sh, err e)
      | ok r ↦
          let (sh', result) =
            write_paste allows canonicalize cwd want_path want_content sh r.0 r.1 in
          (running rt, sh', result)
    ]

    unfoldable pub paste : Machine B → Shell → Bool → Bool → ℕ → Bool → Done B
    unfolding roundtrip write_paste response_of
    paste (running rt) sh want_path want_content now saves =
        if want_path && want_content
        then (running rt, sh, err exclusive)
        else pasted sh want_path want_content (
            roundtrip backend sha256 is_ipv6 b64_decode resolve clipboard pid rt paste_request []
              now saves)
    paste (stopped b) sh want_path want_content now saves =
        if want_path && want_content
        then (stopped b, sh, err exclusive)
        else (elim (backend.get b) [
          | err e ↦ (stopped b, sh, err backend_failed)
          | ok cur ↦ elim cur [
            | none ↦ (stopped b, sh, err clipboard_empty)
            | some item ↦
                let (sh', result) =
                  write_paste allows canonicalize cwd want_path want_content sh
                    (response_of backend b item) item.content in
                (stopped b, sh', result)
          ]
        ])

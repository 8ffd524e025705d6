-- ===== src/Cli.antt =====
-- src/cli.rs: what `zsync copy` does, with the daemon or, when none runs, with the clipboard itself.
pub mod Paste
pub mod Xclip
pub mod Holds
pub mod OnDisk
pub mod Pasting
pub mod Cwd
mod Examples
use zsync.Base.{
  ltb, leb, eqb, if◌then◌else◌, ltb→lt, lt→ltb, le→ltb, leb→le, eqb_iff, Bool-cases, Option-cases,
  length, get_or, take, drop, replicate, is_empty, any, all, keep, All, length-append, length-drop,
  length-take, take-append, drop-append, take-append-drop, take-length, any-append, length-keep-le,
  Bytes, Text, codes, text_beq, text_beq_iff, text_eq, starts_with, utf8_width, text_len, ◌>>=◌,
  ◌>>◌, fail_if, or_fail, Result-cases, Result, Eq, ◌==◌, nat_eq, ok, err, ℕ, zero, suc, ◌+◌, ◌-◌,
  ◌*◌, ◌/◌, ◌%◌, ◌^◌, ◌≤◌, ◌<◌, min, max, ◌≡◌, refl, sym, ap, ap₂, ◌∙◌, subst, ◌≢◌, ◌↔◌, ◌⊎◌, inl,
  inr, Bool, true, false, not, ◌&&◌, ◌||◌, Option, none, some, List, [], ◌∷◌, ◌++◌, map,
  append_assoc, append-nil, arith,
}
use zsync.Base.Map.{lookup, insert}
use zsync.Base.Utf8.{as_bytes}
use zsync.Protocol.{max_clip}
use zsync.Protocol.Mime.{detect_mime}
use zsync.Clipboard.{Item, Backend, should_write_file, clip_filename}
use zsync.Clipboard.File.{Files, path_join}
use zsync.Net.{PeerTarget}
use zsync.Ipc.{IpcError, payload_too_large, closed}
use zsync.Daemon.Table.{Runtime}
use zsync.Daemon.Dispatch.{Request, Response, Refusal, dispatch, plain, unless_empty}

-- What the commands work on: the runtime of the daemon, or the clipboard when no daemon runs.
pub data Machine (B : Type 0) : Type 0 where
  running : Runtime B → Machine B
  stopped : B → Machine B

-- The standard input, the bytes that were printed, and the files of the machine. On a terminal,
-- `stdin` is what the user types.
pub record Shell : Type 0 where
  pub stdin : Bytes
  pub is_terminal : Bool
  pub out : Bytes
  pub files : Files

-- `exits` is `std::process::exit(0)`, with what was printed before.
pub data CliError : Type 0 where
  exceeds_limit nothing_to_copy backend_failed clipboard_empty exclusive no_data unreadable :
      CliError
  unwritten no_path : CliError
  failed : Option Refusal → CliError
  ipc : IpcError → CliError
  exits : Bytes → CliError

abbrev pub Done : Type 0 → Type 0
Done B = Machine B × Shell × Result CliError (Unit {0})

abbrev pub printed : Shell → Bytes → Shell
printed sh b = record sh { out = sh.out ++ b }

-- The standard input up to one byte more than a clip may have.
abbrev pub piped : Shell → Bytes
piped sh = take (max_clip + 1) sh.stdin

-- `[String]::join`.
unfoldable pub join : Text → List Text → Text
join sep [] = []
join sep (t ∷ []) = t
join sep (t ∷ u ∷ ts) = t ++ (sep ++ join sep (u ∷ ts))

unfoldable pub read_copy_payload : Shell → List Text → Result CliError Bytes
unfolding join
read_copy_payload sh text =
    if not sh.is_terminal
    then (if ltb max_clip (length (piped sh)) then err exceeds_limit else ok (piped sh))
    else if is_empty text
    then err nothing_to_copy
    else ok (as_bytes (join (codes " ") text))

-- A negative response is an error.
unfoldable pub expect_ok : Result IpcError (Response × Bytes) → Result CliError (Response × Bytes)
expect_ok (err e) = err (ipc e)
expect_ok (ok r) = if r.0.ok_flag then ok r else err (failed r.0.error)

abbrev pub copy_request : Bytes → Request
copy_request data_bytes = record {
  action = codes "copy";
  uri = none;
  mime = some (detect_mime data_bytes);
}

-- The item that is written when no daemon runs.
abbrev pub bare_item : Bytes → Item
bare_item data_bytes = record {
  mime = detect_mime data_bytes;
  content = data_bytes;
  hash = [];
  path = [];
  name = [];
}

module _ {B : Type 0} (backend : Backend B) (sha256 : Bytes → Bytes) (is_ipv6 : Text → Bool)
    (b64_decode : Text → Option Bytes) (resolve : PeerTarget → Option PeerTarget) (clipboard : Text)
    (pid : ℕ) where
  -- `Connection::roundtrip` over a connection to the daemon, whose framing is in Ipc and
  -- Daemon.Control, when serde_json writes the headers. A body that is too large is not sent, or
  -- ends the connection.
  unfoldable pub roundtrip :
      Runtime B → Request → Bytes → ℕ → Bool → Runtime B × Result IpcError (Response × Bytes)
  roundtrip rt req body now saves =
      let (rt', resp, out) =
        dispatch backend sha256 is_ipv6 b64_decode resolve rt req body clipboard pid now saves in
      if ltb max_clip (length body)
      then (rt, err payload_too_large)
      else if ltb max_clip (length out)
      then (rt', err closed)
      else (rt', ok (resp, out))

  -- The end of a copy that the daemon answered.
  abbrev pub answered :
      Runtime B × Result IpcError (Response × Bytes) → Machine B × Result CliError (Unit {0})
  answered (rt, answer) = (running rt, (expect_ok answer >>= λ _. ok tt))

  unfoldable pub put_clipboard :
      Machine B → Bytes → ℕ → Bool → Machine B × Result CliError (Unit {0})
  unfolding roundtrip
  put_clipboard (running rt) data_bytes now saves =
      if ltb max_clip (length data_bytes)
      then (running rt, err exceeds_limit)
      else answered (roundtrip rt (copy_request data_bytes) data_bytes now saves)
  put_clipboard (stopped b) data_bytes now saves =
      let (b', result) = backend.set b (bare_item data_bytes) in
      if ltb max_clip (length data_bytes)
      then (stopped b, err exceeds_limit)
      else (stopped b', (elim result [ err e ↦ err backend_failed | ok stored ↦ ok tt ]))

  unfoldable pub copy : Machine B → Shell → List Text → ℕ → Bool → Done B
  unfolding put_clipboard read_copy_payload
  copy m sh text now saves = elim (read_copy_payload sh text) [
    | err e ↦ (m, sh, err e)
    | ok data_bytes ↦ let (m', result) = put_clipboard m data_bytes now saves in (m', sh, result)
  ]

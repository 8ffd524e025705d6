-- ===== src/Cli/Examples.antt =====
-- A text is copied from a pipe and pasted, through the daemon.
use zsync.Base.{
  if◌then◌else◌, is_empty, Bytes, Text, codes, text_eq, Result, nat_eq, ok, err, ◌≡◌, refl, sym, ap,
  ◌∙◌, Bool, true, false, none, some, List, [], ◌∷◌, arith,
}
use zsync.Clipboard.{Item, new_item}
use zsync.Clipboard.Memory.{Memory, memory}
use zsync.Protocol.Examples.{digest, codec, via, write_meta}
use zsync.State.{open_state, next_seq, save}
use zsync.Hub.{new, local_push, pack, broadcast}
use zsync.Daemon.Dispatch
use zsync.Daemon.Dispatch.{dispatch, plain}
use zsync.Hub.Examples.{board}
use zsync.Daemon.Dispatch.Examples.{is_ipv6, b64_decode, daemon}
use zsync.Protocol.{hash, hex_encode}
use zsync.Protocol.Mime.{detect_mime, is_utf8}
use zsync.Base.Words.{AreBytes}
use zsync.Clipboard.File.{
  FileBackend, file_backend, file_set, set_stable, write_current, write_offer, write_atomic,
  open_backend,
}
use zsync.Clipboard.File.Examples.{current_codec, start}
use zsync.Clipboard.File.Examples
use zsync.Cli.OnDisk.{file_backend-Keeps}
use zsync.Cli.{stopped}
use zsync.Cli.Cwd.{OneWritten, paste_stays_in_cwd}
use zsync.Cli.Xclip.{
  XclipOpts, no_opts, arg_of, parse_from, parse_xclip_args, xclip_content, xclip_copy, xclip_compat,
}
use zsync.Cli.Xclip.Selection.{selection_is_printed}
use zsync.Cli.{
  Done, CliError, Machine, running, Shell, printed, read_copy_payload, put_clipboard, roundtrip,
  expect_ok, copy,
}
use zsync.Cli.Paste.{write_paste, paste}
use zsync.Cli.Holds.{Keeps}
use zsync.Cli.Pasting.{copied_is_pasted}

same_content :
    (b : Bool) (h : Text) (item : Item)
    → (if b then record item { hash = h } else item).content ≡ item.content
same_content true h item = refl
same_content false h item = refl

board-Keeps : Keeps board digest
unfolding memory
board-Keeps = record {
  kept = λ b item stored bare hashed done. (
    ap (λ r. elim r [ err e ↦ err e | ok i ↦ ok (some i) ]) done,
    sym (ap (λ r. elim r [ err e ↦ [] | ok i ↦ i.content ]) done)
        ∙ same_content (is_empty item.hash) (hash digest item.content) item,
  );
}

abbrev shell : Shell
shell = record { stdin = codes "hi"; is_terminal = false; out = []; files = [] }

abbrev copied : Machine Memory × Shell × Result CliError (Unit {0})
copied =
    copy board digest is_ipv6 b64_decode some (codes "memory") 77 (running daemon) shell [] 100 true

read : read_copy_payload shell [] ≡ ok (codes "hi")
unfolding read_copy_payload
read = refl

finished : copied.2 ≡ ok tt
unfolding copy read_copy_payload put_clipboard roundtrip dispatch Dispatch.copy local_push pack
    broadcast next_seq expect_ok new open_state save memory new_item
finished = refl

copied_is_pasted_example :
    paste board digest is_ipv6 b64_decode some
      (codes "memory")
      77
      (λ p. true)
      some
      (codes "/home/me")
      copied.0
      shell
      false
      true
      200
      true
    ≡ (copied.0, printed shell (codes "hi"), ok tt)
copied_is_pasted_example =
    copied_is_pasted board digest board-Keeps is_ipv6 b64_decode some (codes "memory") 77
      (λ p. true) some (codes "/home/me") (running daemon) shell shell [] (codes "hi") 100 200 true
      true read finished

-- A peer names its clip after a file of the system.
paste_stays_in_cwd_example :
    let resp = record (plain true none) {
      mime = some (codes "text/plain");
      name = some (codes "/etc/passwd");
    } in
    OneWritten
      (codes "/home/me")
      shell.files
      (write_paste (λ p. true) some (codes "/home/me") false false shell resp (codes "hi")).0.files
paste_stays_in_cwd_example =
    paste_stays_in_cwd (λ p. true) some (codes "/home/me") false false shell
      (record (plain true none) {
        mime = some (codes "text/plain");
        name = some (codes "/etc/passwd");
      })
      (codes "hi")

abbrev line : Shell
line = record { stdin = codes "hi\n"; is_terminal = false; out = []; files = [] }

abbrev args : List Text
args = codes "-selection" ∷ codes "clipboard" ∷ codes "-r" ∷ []

abbrev opts : XclipOpts
opts = record no_opts { drop_last_nl = true }

parsed : parse_xclip_args [] args ≡ ok opts
unfolding parse_xclip_args parse_from arg_of
parsed = refl

digests : (d : Bytes) → AreBytes (digest d) × (is_empty (digest d) ≡ false)
digests d = ((omega arith, tt), refl)

-- No daemon runs, and the content is kept in files.
abbrev selected : Done FileBackend
selected =
    xclip_compat Examples.board digest is_ipv6 b64_decode some (codes "files") 77 (λ p. true) some
      (codes "/home/me") [] (stopped start) line args 100 true

selected_done : selected.2 ≡ ok tt
unfolding xclip_compat xclip_copy xclip_content parse_xclip_args parse_from arg_of put_clipboard
    file_backend file_set set_stable write_current write_offer write_atomic open_backend
    current_codec via codec write_meta hash hex_encode detect_mime is_utf8
selected_done = refl

selection_is_printed_example :
    (selected.1 ≡ line)
    × (xclip_compat Examples.board digest is_ipv6 b64_decode some
          (codes "files")
          77
          (λ p. true)
          some
          (codes "/home/me")
          []
          selected.0
          shell
          (codes "-o" ∷ [])
          200
          true
        ≡ (selected.0, printed shell (codes "hi"), ok tt))
unfolding xclip_content
selection_is_printed_example =
    selection_is_printed Examples.board digest
      (file_backend-Keeps (λ p. true) current_codec some digest digests) is_ipv6 b64_decode some
      (codes "files") 77 (λ p. true) some (codes "/home/me") [] (stopped start) line shell args opts
      (codes "hi\n") 100 200 true true parsed refl refl selected_done

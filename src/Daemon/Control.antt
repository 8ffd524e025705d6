-- ===== src/Daemon/Control.antt =====
-- `handle_ipc` of src/daemon.rs: the requests of one connection of the command line, whose bytes
-- are `stream`. `now` and `saves` give the clock and the disk of each request by its number. The
-- fuel counts the requests; each takes a byte of the stream at least.
pub mod Ends
pub mod Answers
mod Examples
use zsync.Base.{
  ltb, leb, eqb, if◌then◌else◌, ltb→lt, lt→ltb, le→ltb, leb→le, eqb_iff, Bool-cases, Option-cases,
  length, get_or, take, drop, replicate, is_empty, any, all, keep, All, length-append, length-drop,
  length-take, take-append, drop-append, take-append-drop, take-length, any-append, length-keep-le,
  Bytes, Text, codes, text_beq, text_beq_iff, text_eq, starts_with, utf8_width, text_len, ◌>>=◌,
  ◌>>◌, fail_if, or_fail, Result-cases, Result, Eq, ◌==◌, nat_eq, ok, err, ℕ, zero, suc, ◌+◌, ◌-◌,
  ◌*◌, ◌/◌, ◌%◌, ◌^◌, ◌≤◌, ◌<◌, min, max, ◌≡◌, refl, sym, ap, ap₂, ◌∙◌, subst, ◌≢◌, ◌↔◌, ◌⊎◌, inl,
  inr, Bool, true, false, not, ◌&&◌, ◌||◌, Option, none, some, List, [], ◌∷◌, ◌++◌, map,
  append_assoc, append-nil, arith,
}
use zsync.Clipboard.{Backend}
use zsync.Net.{PeerTarget}
use zsync.Ipc.{IpcError, Header, write_msg, read_line_json, read_exact_body}
use zsync.Daemon.Table.{Runtime}
use zsync.Daemon.Dispatch.{Request, Response, Reply, dispatch}

-- The runtime, what was sent, and how the connection ended.
abbrev pub Handled : Type 0 → Type 0
Handled B = Runtime B × Bytes × Result IpcError (Unit {0})

module _ {B : Type 0} (backend : Backend B) (sha256 : Bytes → Bytes) (is_ipv6 : Text → Bool)
    (b64_decode : Text → Option Bytes) (resolve : PeerTarget → Option PeerTarget)
    (requests : Header Request) (responses : Header Response) (clipboard : Text) (pid : ℕ)
    (now : ℕ → ℕ) (saves : ℕ → Bool) where
  -- The reply to the request with the number `i`, with the length of its body.
  unfoldable pub reply : Runtime B → ℕ → Request → Bytes → Reply B
  reply rt i req body =
      let (rt', resp, out) =
        dispatch backend sha256 is_ipv6 b64_decode resolve rt req body clipboard pid (now i)
          (saves i) in
      (rt', record resp { n = length out }, out)

  unfoldable pub handle_ipc : ℕ → ℕ → Runtime B → Bytes → Bytes → Option (Handled B)
  unfolding reply
  handle_ipc zero i rt stream sent = none
  handle_ipc (suc fuel) i rt stream sent = elim (read_line_json requests stream) [
    | err e ↦ some (rt, sent, ok tt)
    | ok got ↦ elim (read_exact_body got.1 got.0.1) [
      | err e ↦ some (rt, sent, err e)
      | ok taken ↦
          let (rt', resp, out) = reply rt i got.0.0 taken.0 in
          elim (write_msg responses sent resp out) [
            | err e ↦ some (rt', sent, err e)
            | ok sent' ↦ handle_ipc fuel (i + 1) rt' taken.1 sent'
          ]
    ]
  ]

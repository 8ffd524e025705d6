-- ===== src/Cli/Pasting.antt =====
-- What was copied is pasted.
use zsync.Base.{
  ltb, Bool-cases, length, Bytes, Text, text_eq, Result-cases, Result, nat_eq, ok, err, ℕ, ◌≤◌, ◌≡◌,
  refl, sym, ap, ◌∙◌, subst, inl, inr, Bool, true, false, Option, none, some, List, [], arith,
}
use zsync.Cli.Holds.{Keeps, new_item-IsHashed, clipboard_of, Holds, local_push-Holds, set-Holds}
use zsync.Protocol.{max_clip, Clip}
use zsync.Protocol.Mime.{detect_mime}
use zsync.Clipboard.{Item, Backend, new_item}
use zsync.Net.{PeerTarget}
use zsync.Hub.{Outcome, local_push}
use zsync.Daemon.Table.{Runtime}
use zsync.Daemon.Dispatch
use zsync.Daemon.Dispatch.{
  Request, Response, Reply, dispatch, done, err_resp, push_failed, clipboard_failed,
  clipboard_empty,
}
use zsync.Cli.{
  Machine, running, stopped, Shell, CliError, printed, read_copy_payload, roundtrip, expect_ok,
  bare_item, copy_request, put_clipboard, answered, copy,
}
use zsync.Cli.Paste.{paste_request, pasted, write_paste, paste, response_of}

module _ {B : Type 0} (backend : Backend B) (sha256 : Bytes → Bytes) (keeps : Keeps backend sha256)
    (is_ipv6 : Text → Bool) (b64_decode : Text → Option Bytes)
    (resolve : PeerTarget → Option PeerTarget) (clipboard : Text) (pid : ℕ) where
  abbrev put : Machine B → Bytes → ℕ → Bool → Machine B × Result CliError (Unit {0})
  put = put_clipboard backend sha256 is_ipv6 b64_decode resolve clipboard pid

  roundtrip-answered :
      (rt : Runtime B) (req : Request) (body : Bytes) (now : ℕ) (saves : Bool) (r : Reply B)
      → dispatch backend sha256 is_ipv6 b64_decode resolve rt req body clipboard pid now saves ≡ r
      → ltb max_clip (length body) ≡ false
      → ltb max_clip (length r.2) ≡ false
      → roundtrip backend sha256 is_ipv6 b64_decode resolve clipboard pid rt req body now saves
        ≡ (r.0, ok (r.1, r.2))
  unfolding roundtrip
  roundtrip-answered rt req body now saves r same small fits =
      rw (roundtrip, same, small, fits) refl

  abbrev pushed : Runtime B → Bytes → ℕ → Bool → Outcome B Clip
  pushed rt data_bytes now saves =
      local_push backend sha256 rt.hub (new_item sha256 (detect_mime data_bytes) data_bytes) now
        saves

  -- What the daemon answers to a copy.
  abbrev reply_of : Runtime B → Outcome B Clip → Reply B
  reply_of rt out = elim out.1 [
    | err e ↦ err_resp (record rt { hub = out.0 }) (push_failed e)
    | ok clip ↦ done (record rt { hub = out.0 })
  ]

  dispatch-copy :
      (rt : Runtime B) (data_bytes : Bytes) (now : ℕ) (saves : Bool)
      → dispatch backend sha256 is_ipv6 b64_decode resolve rt
          (copy_request data_bytes)
          data_bytes
          clipboard
          pid
          now
          saves
        ≡ reply_of rt (pushed rt data_bytes now saves)
  unfolding dispatch Dispatch.copy
  dispatch-copy rt data_bytes now saves = refl

  put-running :
      (rt : Runtime B) (data_bytes : Bytes) (now : ℕ) (saves : Bool) (out : Outcome B Clip)
      → pushed rt data_bytes now saves ≡ out
      → ltb max_clip (length data_bytes) ≡ false
      → ltb max_clip (length (reply_of rt out).2) ≡ false
      → put (running rt) data_bytes now saves
        ≡ answered backend sha256 is_ipv6 b64_decode resolve clipboard pid
            ((reply_of rt out).0, ok ((reply_of rt out).1, (reply_of rt out).2))
  unfolding put_clipboard
  put-running rt data_bytes now saves out same fits short =
      rw (put_clipboard, fits) refl
      ∙ ap (answered backend sha256 is_ipv6 b64_decode resolve clipboard pid) (
          roundtrip-answered rt (copy_request data_bytes) data_bytes now saves (reply_of rt out)
            (dispatch-copy rt data_bytes now saves ∙ ap (reply_of rt) same) fits short)

  -- A copy that succeeds reached the clipboard of the daemon.
  pushed-put :
      (rt : Runtime B) (data_bytes : Bytes) (now : ℕ) (saves : Bool) (out : Outcome B Clip)
      → pushed rt data_bytes now saves ≡ out
      → ltb max_clip (length data_bytes) ≡ false
      → (put (running rt) data_bytes now saves).1 ≡ ok tt
      → (clip : Clip) × (out.1 ≡ ok clip)
        × (clipboard_of (put (running rt) data_bytes now saves).0 ≡ out.0.clipboard)
  unfolding expect_ok
  pushed-put rt data_bytes now saves (hub, ok clip) same fits finished = (
    clip,
    refl,
    ap (λ o. clipboard_of o.0) (put-running rt data_bytes now saves (hub, ok clip) same fits refl),
  )
  pushed-put rt data_bytes now saves (hub, err e) same fits finished =
      absurd (cc (ap (λ o. o.1) (put-running rt data_bytes now saves (hub, err e) same fits refl)))

  put_clipboard-Holds :
      (m : Machine B) (data_bytes : Bytes) (now : ℕ) (saves : Bool)
      → (put m data_bytes now saves).1 ≡ ok tt
      → Holds backend (clipboard_of (put m data_bytes now saves).0) data_bytes
        × (length data_bytes ≤ max_clip)
  unfolding put_clipboard new_item expect_ok
  put_clipboard-Holds (running rt) data_bytes now saves finished =
      elim (Bool-cases (ltb max_clip (length data_bytes))) [
        | inl big ↦ absurd (ground (arith, big))
        | inr fits ↦
            let (clip, good, same) = pushed-put rt data_bytes now saves _ refl fits finished in
            let (item, read, content) =
              local_push-Holds backend sha256 keeps rt.hub
                (new_item sha256 (detect_mime data_bytes) data_bytes) now saves clip refl
                (new_item-IsHashed sha256 (detect_mime data_bytes) data_bytes) good in
            ((item, ap backend.get same ∙ read, content), ground (arith, fits))
      ]
  put_clipboard-Holds (stopped b) data_bytes now saves finished =
      elim (Bool-cases (ltb max_clip (length data_bytes))) [
        | inl big ↦ absurd (ground (arith, big))
        | inr fits ↦ elim (Result-cases (backend.set b (bare_item data_bytes)).1) [
          | inl (e, bad) ↦ absurd (cc (rw (put_clipboard, fits, bad) at finished))
          | inr (stored, good) ↦ (
            rw (put_clipboard, fits) (set-Holds backend sha256 keeps b data_bytes stored good),
            ground (arith, fits),
          )
        ]
      ]

  dispatch-paste :
      (rt : Runtime B) (item : Item) (now : ℕ) (saves : Bool)
      → backend.get rt.hub.clipboard ≡ ok (some item)
      → dispatch backend sha256 is_ipv6 b64_decode resolve rt paste_request [] clipboard pid now
          saves
        ≡ (rt, response_of backend rt.hub.clipboard item, item.content)
  unfolding dispatch Dispatch.paste response_of
  dispatch-paste rt item now saves read = ap whole read
    where
      whole : Result (Unit {0}) (Option Item) → Reply B
      whole r = elim r [
        | err e ↦ err_resp rt clipboard_failed
        | ok cur ↦ elim cur [
          | none ↦ err_resp rt clipboard_empty
          | some i ↦ (rt, response_of backend rt.hub.clipboard i, i.content)
        ]
      ]

  -- `--content` prints the body, whatever the response says.
  write_paste-content :
      (allows : Text → Bool) (canonicalize : Text → Option Text) (cwd : Text) (sh : Shell)
      (resp : Response) (body : Bytes)
      → write_paste allows canonicalize cwd false true sh resp body ≡ (printed sh body, ok tt)
  unfolding write_paste
  write_paste-content allows canonicalize cwd sh resp body = ground arith

  -- The content of the clipboard is printed, and nothing else happens.
  paste-Holds :
      (allows : Text → Bool) (canonicalize : Text → Option Text) (cwd : Text) (m : Machine B)
      (sh : Shell) (data_bytes : Bytes) (now : ℕ) (saves : Bool)
      → Holds backend (clipboard_of m) data_bytes
      → length data_bytes ≤ max_clip
      → paste backend sha256 is_ipv6 b64_decode resolve clipboard pid allows canonicalize cwd m sh
          false true now saves
        ≡ (m, printed sh data_bytes, ok tt)
  unfolding paste expect_ok response_of
  paste-Holds allows canonicalize cwd (running rt) sh data_bytes now saves (item, read, same) fits =
      ap
        (pasted backend sha256 is_ipv6 b64_decode resolve clipboard pid allows canonicalize cwd sh
          false true)
        (roundtrip-answered rt paste_request [] now saves
          (rt, response_of backend rt.hub.clipboard item, item.content)
          (dispatch-paste rt item now saves read) refl (rw same (ground (arith, fits))))
      ∙ ap (λ o. (running rt, o.0, o.1))
          (write_paste-content allows canonicalize cwd sh
              (response_of backend rt.hub.clipboard item) item.content
            ∙ ap (λ d. (printed sh d, ok tt)) same)
  paste-Holds allows canonicalize cwd (stopped b) sh data_bytes now saves (item, read, same) fits =
      rw
        (
          paste,
          read,
          write_paste-content allows canonicalize cwd sh (response_of backend b item) item.content,
          same,
        )
        refl

  pub put_is_pasted :
      (allows : Text → Bool) (canonicalize : Text → Option Text) (cwd : Text) (m : Machine B)
      (sh : Shell) (data_bytes : Bytes) (now now' : ℕ) (saves saves' : Bool)
      → (put m data_bytes now saves).1 ≡ ok tt
      → paste backend sha256 is_ipv6 b64_decode resolve clipboard pid allows canonicalize cwd
          (put m data_bytes now saves).0
          sh
          false
          true
          now'
          saves'
        ≡ ((put m data_bytes now saves).0, printed sh data_bytes, ok tt)
  put_is_pasted allows canonicalize cwd m sh data_bytes now now' saves saves' finished =
      let (held, fits) = put_clipboard-Holds m data_bytes now saves finished in
      paste-Holds allows canonicalize cwd _ sh data_bytes now' saves' held fits

  copy-put :
      (m : Machine B) (sh : Shell) (text : List Text) (data_bytes : Bytes) (now : ℕ) (saves : Bool)
      → read_copy_payload sh text ≡ ok data_bytes
      → copy backend sha256 is_ipv6 b64_decode resolve clipboard pid m sh text now saves
        ≡ ((put m data_bytes now saves).0, sh, (put m data_bytes now saves).1)
  unfolding copy
  copy-put m sh text data_bytes now saves given = rw (copy, given) refl

  -- The clipboard keeps items without a name that are written to it, as Keeps says. Then what
  -- `zsync copy` takes from a pipe or from its arguments, and copies without an error, is what
  -- `zsync paste --content` prints afterwards, and that changes no file; so it is with the daemon,
  -- and without it.
  pub copied_is_pasted :
      (allows : Text → Bool) (canonicalize : Text → Option Text) (cwd : Text) (m : Machine B)
      (sh sh' : Shell) (text : List Text) (data_bytes : Bytes) (now now' : ℕ) (saves saves' : Bool)
      → read_copy_payload sh text ≡ ok data_bytes
      → let copied =
          copy backend sha256 is_ipv6 b64_decode resolve clipboard pid m sh text now saves in
        copied.2 ≡ ok tt
        → paste backend sha256 is_ipv6 b64_decode resolve clipboard pid allows canonicalize cwd
            copied.0 sh' false true now' saves'
          ≡ (copied.0, printed sh' data_bytes, ok tt)
  copied_is_pasted allows canonicalize cwd m sh sh' text data_bytes now now' saves saves' given
        finished =
      let whole = copy-put m sh text data_bytes now saves given in
      subst
        (λ n.
          paste backend sha256 is_ipv6 b64_decode resolve clipboard pid allows canonicalize cwd n
            sh' false true now' saves'
          ≡ (n, printed sh' data_bytes, ok tt))
        (sym (ap (λ o. o.0) whole))
        (put_is_pasted allows canonicalize cwd m sh' data_bytes now now' saves saves'
          (sym (ap (λ o. o.2) whole) ∙ finished))

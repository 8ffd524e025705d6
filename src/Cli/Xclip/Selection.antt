-- ===== src/Cli/Xclip/Selection.antt =====
-- What xclip copied is what `xclip -o` prints.
use zsync.Base.{
  ltb, if◌then◌else◌, Bool-cases, length, Bytes, Text, codes, text_eq, nat_eq, ok, ℕ, ◌≡◌, refl,
  sym, ap, ◌∙◌, subst, inl, inr, Bool, true, false, Option, List, [], ◌∷◌,
}
use zsync.Protocol.{max_clip}
use zsync.Clipboard.{Backend}
use zsync.Net.{PeerTarget}
use zsync.Cli.{Machine, Shell, printed, put_clipboard}
use zsync.Cli.Paste.{paste}
use zsync.Cli.Holds.{Keeps}
use zsync.Cli.Pasting.{put_is_pasted}
use zsync.Cli.Xclip.{
  XclipOpts, arg_of, parse_from, parse_xclip_args, without_last_nl, xclip_content, xclip_copy,
  xclip_compat,
}

module _ {B : Type 0} (backend : Backend B) (sha256 : Bytes → Bytes) (keeps : Keeps backend sha256)
    (is_ipv6 : Text → Bool) (b64_decode : Text → Option Bytes)
    (resolve : PeerTarget → Option PeerTarget) (clipboard : Text) (pid : ℕ) (allows : Text → Bool)
    (canonicalize : Text → Option Text) (cwd : Text) (shown : Bytes) where
  -- The bytes that are copied, of those that were read.
  abbrev pub kept_of : XclipOpts → Bytes → Bytes
  kept_of opts data_bytes = if opts.drop_last_nl then without_last_nl data_bytes else data_bytes

  xclip_copy-put :
      (m : Machine B) (sh : Shell) (opts : XclipOpts) (data_bytes : Bytes) (now : ℕ) (saves : Bool)
      → let copied =
          xclip_copy backend sha256 is_ipv6 b64_decode resolve clipboard pid m sh opts data_bytes
            now saves in
        let put =
          put_clipboard backend sha256 is_ipv6 b64_decode resolve clipboard pid m
            (kept_of opts data_bytes)
            now
            saves in
        copied.2 ≡ ok tt
        → copied
          ≡ (put.0, (if opts.filter then printed sh (kept_of opts data_bytes) else sh), put.1)
  unfolding xclip_copy
  xclip_copy-put m sh opts data_bytes now saves finished =
      elim (Bool-cases (ltb max_clip (length data_bytes))) [
        | inl big ↦ absurd (cc (rw (xclip_copy, big) at finished))
        | inr fits ↦ rw (xclip_copy, fits) refl
      ]

  xclip_compat-copy :
      (m : Machine B) (sh : Shell) (args : List Text) (opts : XclipOpts) (data_bytes : Bytes)
      (now : ℕ) (saves : Bool)
      → parse_xclip_args shown args ≡ ok opts
      → opts.output ≡ false
      → xclip_content opts sh ≡ ok data_bytes
      → xclip_compat backend sha256 is_ipv6 b64_decode resolve clipboard pid allows canonicalize cwd
          shown m sh args now saves
        ≡ xclip_copy backend sha256 is_ipv6 b64_decode resolve clipboard pid m sh opts data_bytes
            now saves
  unfolding xclip_compat
  xclip_compat-copy m sh args opts data_bytes now saves parsed copies given =
      simp (xclip_compat, parsed, copies, given)

  xclip_compat-paste :
      (m : Machine B) (sh : Shell) (now : ℕ) (saves : Bool)
      → xclip_compat backend sha256 is_ipv6 b64_decode resolve clipboard pid allows canonicalize cwd
          shown m sh
          (codes "-o" ∷ [])
          now
          saves
        ≡ paste backend sha256 is_ipv6 b64_decode resolve clipboard pid allows canonicalize cwd m sh
            false true now saves
  unfolding xclip_compat parse_xclip_args parse_from arg_of
  xclip_compat-paste m sh now saves = refl

  -- The clipboard keeps items without a name that are written to it, as Keeps says; xclip is
  -- called without `-o`, and what it reads, a file or the standard input, is copied without an
  -- error. Then `xclip -o` prints the bytes, without the last line feed if `-r` was given, and
  -- changes no file; the first call printed them too if `-f` was given, and else nothing.
  pub selection_is_printed :
      (m : Machine B) (sh sh' : Shell) (args : List Text) (opts : XclipOpts) (data_bytes : Bytes)
      (now now' : ℕ) (saves saves' : Bool)
      → parse_xclip_args shown args ≡ ok opts
      → opts.output ≡ false
      → xclip_content opts sh ≡ ok data_bytes
      → let kept = kept_of opts data_bytes in
        let copied =
          xclip_compat backend sha256 is_ipv6 b64_decode resolve clipboard pid allows canonicalize
            cwd shown m sh args now saves in
        copied.2 ≡ ok tt
        → (copied.1 ≡ (if opts.filter then printed sh kept else sh))
          × (xclip_compat backend sha256 is_ipv6 b64_decode resolve clipboard pid allows
                canonicalize cwd shown copied.0 sh'
                (codes "-o" ∷ [])
                now'
                saves'
              ≡ (copied.0, printed sh' kept, ok tt))
  selection_is_printed m sh sh' args opts data_bytes now now' saves saves' parsed copies given
        finished =
      let alike = xclip_compat-copy m sh args opts data_bytes now saves parsed copies given in
      let finished' = sym (ap (λ o. o.2) alike) ∙ finished in
      let whole = alike ∙ xclip_copy-put m sh opts data_bytes now saves finished' in
      (
        ap (λ o. o.1) whole,
        subst
            (λ n.
              xclip_compat backend sha256 is_ipv6 b64_decode resolve clipboard pid allows
                canonicalize cwd shown n sh' (codes "-o" ∷ []) now' saves'
              ≡ (n, printed sh' (kept_of opts data_bytes), ok tt))
            (sym (ap (λ o. o.0) whole))
            (xclip_compat-paste _ sh' now' saves'
              ∙ put_is_pasted backend sha256 keeps is_ipv6 b64_decode resolve clipboard pid allows
                  canonicalize cwd m sh' (kept_of opts data_bytes) now now' saves saves'
                  (sym (ap (λ o. o.2) whole) ∙ finished)),
      )

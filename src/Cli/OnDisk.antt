-- ===== src/Cli/OnDisk.antt =====
-- The backend that keeps its content in files keeps what it is given.
use zsync.Base.{
  length, is_empty, all, Bytes, Text, text_eq, nat_eq, ok, ◌≡◌, refl, sym, ap, ◌∙◌, Bool, true,
  false, not, Option, none, some, [], ◌∷◌,
}
use zsync.Base.Words.{AreBytes}
use zsync.Base.Map.{retain}
use zsync.Protocol.{Json, hash, hex_encode}
use zsync.Protocol.Mime.{ext_for_mime}
use zsync.Group.Ids.{hex_encode-hex}
use zsync.Group.{is_ascii_hexdigit}
use zsync.Clipboard.{Item}
use zsync.Clipboard.File.{
  Current, FileBackend, Files, write_atomic, stable, is_stale, is_dropped, write_offer,
  write_current, set_stable, file_backend,
}
use zsync.Clipboard.File.Writes.{all_written_lem, file_set_done}
use zsync.Clipboard.File.Kept.{file_get-file_set}
use zsync.Clipboard.Names.{IsPlain}
use zsync.Cli.Holds.{Keeps}

module _ (allows : Text → Bool) (codec : Json Current) (canonicalize : Text → Option Text)
    (sha256 : Bytes → Bytes) where
  set_stable-stored :
      (b : FileBackend) (files : Files) (item stored : Item) (mime h : Text)
      → (set_stable allows codec canonicalize sha256 b files item mime h).1 ≡ ok stored
      → (stored.content ≡ item.content) × (stored.hash ≡ h)
  unfolding set_stable
  set_stable-stored b files item stored mime h done =
      let (_, _, _, _, same) =
        all_written_lem stable_files.1 offered.1 (record b { files = stable_files.0 })
          (record b { files = offered.0 })
          (write_current allows codec canonicalize sha256 b offered.0 cur)
          (record {
            mime = mime;
            content = item.content;
            hash = h;
            path = cur.path;
            name = item.name;
          })
          stored done in
      (sym (ap (λ i. i.content) same), sym (ap (λ i. i.hash) same))
    where
      stable_files : Files × Bool
      stable_files = write_atomic allows files (stable b.dir (ext_for_mime mime)) item.content

      offered : Files × Bool × Text
      offered =
          write_offer allows
            (retain (λ p _. not (is_dropped b.dir p))
              (retain (λ p _. not (is_stale b.dir (ext_for_mime mime) p)) stable_files.0))
            item b.dir (ext_for_mime mime)

      cur : Current
      cur = record {
        hash = h;
        mime = mime;
        size = length item.content;
        path = elim (canonicalize offered.2) [ none ↦ offered.2 | some p ↦ p ];
        name = item.name;
      }

  hex_encode_given : (bs : Bytes) → is_empty bs ≡ false → is_empty (hex_encode bs) ≡ false
  unfolding hex_encode
  hex_encode_given [] h = h
  hex_encode_given (b ∷ bs) h = refl

  nameless-IsPlain : (name : Text) → is_empty name ≡ true → IsPlain name
  nameless-IsPlain [] h = tt
  nameless-IsPlain (c ∷ s) h = absurd (cc)

  -- With a digest that gives bytes, at least one, the backend of files keeps what it is given.
  pub file_backend-Keeps :
      ((data_bytes : Bytes) → AreBytes (sha256 data_bytes) × (is_empty (sha256 data_bytes) ≡ false))
      → Keeps (file_backend allows codec canonicalize sha256) sha256
  unfolding file_backend hash
  file_backend-Keeps digests = record {
    kept = λ b item stored bare hashed done.
        let (_, same) = file_set_done allows codec canonicalize sha256 b item stored done in
        let (content, h) =
          set_stable-stored b _ item stored _ _ (sym (ap (λ o. o.1) same) ∙ done) in
        let (bytes, given) = digests item.content in
        let digest : stored.hash ≡ hash sha256 item.content = h ∙ hashed in
        (
          (file_get-file_set allows codec canonicalize sha256 b item stored done
              (nameless-IsPlain item.name bare)
              (ap (all is_ascii_hexdigit) digest ∙ hex_encode-hex (sha256 item.content) bytes)
              (ap is_empty digest ∙ hex_encode_given (sha256 item.content) given)).0,
          content,
        );
  }

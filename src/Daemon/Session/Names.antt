-- ===== src/Daemon/Session/Names.antt =====
-- The name of a clip from a peer, on a machine that keeps its clipboard in files.
use zsync.Base.{
  Bytes, Text, text_eq, codes, starts_with, ok, ℕ, ◌≡◌, ap, ◌∙◌, ◌≢◌, Bool, true, false, Option,
  some,
}
use zsync.Base.Map.{lookup}
use zsync.Protocol.{Clip, Json}
use zsync.Clipboard.{Item, Backend}
use zsync.Clipboard.File.{Current, FileBackend, file_backend, meta_path, tmp_of}
use zsync.Clipboard.File.Escape.{lookup-file_set}
use zsync.Hub.{Hub, already_present, apply_remote}
use zsync.Hub.Apply.{IsNews, item_of}
use zsync.Daemon.Session.Delivery.{news_written}

module _ (allows : Text → Bool) (codec : Json Current) (canonicalize : Text → Option Text)
    (sha256 : Bytes → Bytes) where
  abbrev board : Backend FileBackend
  board = file_backend allows codec canonicalize sha256

  -- When a peer sends a clip whose name is an absolute path, neither that of the metadata nor that
  -- of its temporary file, and the clip is news for the node, is not its current content and `set`
  -- succeeds with it, the file at that path, wherever it is, has the content of the clip.
  pub remote_name_written :
      (hub : Hub FileBackend) (c : Clip) (now : ℕ) (stored : Item)
      → IsNews board sha256 hub c
      → already_present board sha256 hub c.meta.hash ≡ false
      → (board.set hub.clipboard (item_of c)).1 ≡ ok stored
      → starts_with c.meta.name (codes "/") ≡ true
      → meta_path hub.clipboard.dir ≢ c.meta.name
      → tmp_of (meta_path hub.clipboard.dir) ≢ c.meta.name
      → lookup c.meta.name (apply_remote board sha256 hub c now).0.clipboard.files ≡ some c.content
  unfolding file_backend
  remote_name_written hub c now stored news missing done absolute other other_tmp =
      ap (λ b. lookup c.meta.name b.files) (news_written board sha256 hub c now news missing)
      ∙ lookup-file_set allows codec canonicalize sha256 hub.clipboard (item_of c) stored done
          absolute other other_tmp

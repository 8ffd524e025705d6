-- ===== src/Clipboard/Examples.antt =====
-- A name with a directory.
use zsync.Base.{codes, text_eq, nat_eq, ◌≡◌, refl, some}
use zsync.Base.Paths.{file_name}
use zsync.Clipboard.{sanitize_basename}

sanitized : sanitize_basename (codes "/tmp/a.png") ≡ some (codes "a.png")
unfolding sanitize_basename file_name
sanitized = refl

-- ===== src/Clipboard/File/Examples.antt =====
-- A file that is copied with its name, and found again.
use zsync.Base.{text_eq, codes, nat_eq, ok, ◌≡◌, refl, true, some, [], arith}
use zsync.Protocol.{Json, hash, hex_encode}
use zsync.Clipboard.Names.{IsPlain}
use zsync.Protocol.Mime.{detect_mime, is_utf8}
use zsync.Protocol.Examples.{digest, codec, via, write_meta}
use zsync.Clipboard.{Backend, Item}
use zsync.Clipboard.File.{
  Current, FileBackend, file_backend, file_get, file_set, set_stable, write_current, write_offer,
  write_atomic, open_backend,
}
use zsync.Clipboard.File.Kept.{file_get-file_set}

unfoldable pub current_codec : Json Current
current_codec =
    via codec
      (λ c. record {
        origin_id = c.path;
        seq = c.size;
        mime = c.mime;
        hash = c.hash;
        size = 0;
        name = c.name;
      })
      (λ m. record {
        hash = m.hash;
        mime = m.mime;
        size = m.seq;
        path = m.origin_id;
        name = m.name;
      })
      (λ c. refl)

abbrev pub board : Backend FileBackend
board = file_backend (λ p. true) current_codec some digest

abbrev pub start : FileBackend
start = open_backend (λ p. true) current_codec some digest (codes "/z") []

abbrev note : Item
note = record { mime = []; content = codes "hello"; hash = []; path = []; name = codes "a.txt" }

abbrev stored : Item
stored = record {
  mime = codes "text/plain";
  content = codes "hello";
  hash = codes "05";
  path = codes "/z/clips/drop/a.txt";
  name = codes "a.txt";
}

accepted : (board.set start note).1 ≡ ok stored
unfolding file_backend file_set set_stable write_current write_offer write_atomic open_backend
    current_codec via codec write_meta hash hex_encode detect_mime is_utf8
accepted = refl

plain : IsPlain (codes "a.txt")
plain = ground arith

file_get-file_set_example :
    let b' = (file_set (λ p. true) current_codec some digest start note).0 in
    (file_get (λ p. true) current_codec some digest b' ≡ ok (some stored))
    × (file_get
          (λ p. true)
          current_codec
          some
          digest
          (open_backend (λ p. true) current_codec some digest (codes "/z") b'.files)
        ≡ ok (some stored))
unfolding open_backend file_backend
file_get-file_set_example =
    file_get-file_set (λ p. true) current_codec some digest start note stored accepted plain refl
      refl

-- ===== src/Daemon/Session/Examples.antt =====
-- A machine that keeps its clipboard in files receives a clip whose name is an absolute path.
use zsync.Base.{text_eq, codes, nat_eq, ok, ◌≡◌, refl, ◌≢◌, true, false, none, some, [], arith}
use zsync.Base.Paths.{file_name}
use zsync.Base.Map.{lookup}
use zsync.Protocol.{Clip, hash, hex_encode}
use zsync.Protocol.Clips.{verify_clip}
use zsync.Protocol.Examples.{digest, greeting, codec, via, write_meta}
use zsync.Clipboard.{Item}
use zsync.Clipboard.File.{
  FileBackend, file_backend, file_get, file_set, set_stable, write_current, write_offer,
  write_atomic, open_backend, meta_path, tmp_of,
}
use zsync.Suppress.Seen.{accept, default}
use zsync.State.{open_state}
use zsync.Hub.{Hub, new, already_present, apply_remote}
use zsync.Hub.Apply.{IsNews, item_of}
use zsync.Clipboard.File.Examples.{current_codec, board}
use zsync.Daemon.Session.Names.{remote_name_written}

abbrev tv : Hub FileBackend
tv =
    new (codes "tv") (open_backend (λ p. true) current_codec some digest (codes "/z") [])
      (open_state none) 5000

abbrev key : Clip
key = record greeting { meta = record greeting.meta { name = codes "/root/.ssh/authorized_keys" } }

missing : already_present board digest tv (codes "05") ≡ false
unfolding already_present file_backend new open_backend file_get lookup
missing = refl

abbrev stored : Item
stored = record (item_of key) { path = codes "/root/.ssh/authorized_keys" }

done : (board.set tv.clipboard (item_of key)).1 ≡ ok stored
unfolding file_backend file_set set_stable write_current write_offer write_atomic new open_backend
    current_codec via codec write_meta
done = refl

news : IsNews board digest tv key
unfolding new verify_clip hash hex_encode accept default lookup
news = record { verified = refl; foreign = λ h. ground arith; fresh = refl }

apart : tmp_of (meta_path tv.clipboard.dir) ≢ codes "/root/.ssh/authorized_keys"
unfolding new open_backend file_name
apart h = ground arith

remote_name_written_example :
    lookup
      (codes "/root/.ssh/authorized_keys")
      (apply_remote board digest tv key 100).0.clipboard.files
    ≡ some (codes "hello")
unfolding new open_backend
remote_name_written_example =
    remote_name_written (λ p. true) current_codec some digest tv key 100 stored news missing done
      refl (λ h. ground arith) apart

-- ===== src/Daemon/Watcher/Examples.antt =====
-- The watcher of a node that was sent a clip.
use zsync.Base.{
  List, ℕ, Bool, codes, text_eq, nat_eq, ok, ◌≡◌, refl, true, false, none, some, [], ◌∷◌, arith,
}
use zsync.Protocol.Examples.{digest, greeting}
use zsync.Clipboard.{Item}
use zsync.Clipboard.Memory.{Memory}
use zsync.Hub.{ack, hash_of, local_observed, apply_remote}
use zsync.Hub.Examples.{board, laptop, shown, laptop-max, applied}
use zsync.Daemon.Watcher.{
  Watcher, Reading, WatchEvent, stop_changed, elapsed, item_in, watch, watch_all,
}
use zsync.Daemon.Watcher.Echoes.{same_content_observed_once, applied_clip_not_sent_back}

abbrev sees : Reading
sees = ok (some shown)

abbrev fresh_watcher : Watcher Memory
fresh_watcher = record { hub = laptop; last = []; over = false }

abbrev later : List (WatchEvent × ℕ × Bool)
later = (elapsed sees none sees, 300, true) ∷ (stop_changed false, 400, true) ∷ []

-- The disk does not take the write of the first round.
same_content_observed_once_example :
    let v = watch board digest fresh_watcher (elapsed sees none sees) 200 false in
    (v.hub ≡ (local_observed board digest laptop shown 200 false).0)
    × (watch_all board digest v later ≡ v)
same_content_observed_once_example =
    same_content_observed_once board digest fresh_watcher sees sees none shown shown 200 false later
      refl refl refl refl (seen, (refl, tt))
  where
    seen : (i : Item) → item_in sees ≡ some i → i.content ≡ codes "hello"
    seen i h = ground (arith, h)

reads_same : (i : Item) → item_in sees ≡ some i → hash_of board digest i ≡ codes "05"
reads_same i h = ground (arith, h)

applied_clip_not_sent_back_example :
    let hub' = (apply_remote board digest laptop greeting 100).0 in
    (watch board digest (record fresh_watcher { hub = hub' }) (elapsed sees none sees) 900 true).hub
    ≡ hub'
applied_clip_not_sent_back_example =
    applied_clip_not_sent_back board digest fresh_watcher greeting 100 900 true
      (ack (codes "05") true []) sees sees none (omega (arith, laptop-max)) applied refl refl
      reads_same

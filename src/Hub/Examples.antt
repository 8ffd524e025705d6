-- ===== src/Hub/Examples.antt =====
-- A node with the clipboard in memory, and a node whose clipboard takes nothing.
use zsync.Base.{
  codes, text_eq, nat_eq, ok, err, ◌<◌, ◌≡◌, refl, ◌⊎◌, true, false, none, some, [], ◌∷◌, ◌++◌,
  arith,
}
use zsync.Base.Map.{lookup}
use zsync.Protocol.{Clip, hash, hex_encode}
use zsync.Protocol.Clips.{verify_clip}
use zsync.Protocol.Examples.{digest, greeting}
use zsync.Clipboard.{Item, Backend}
use zsync.Clipboard.Memory.{Memory, empty_memory, memory}
use zsync.Suppress
use zsync.Suppress.Seen.{accept, default}
use zsync.State.{open_state, next_seq, save}
use zsync.Hub.{
  Hub, backend_failed, new, pack, broadcast, publish, ack, hash_of, local_observed, already_present,
  store, apply_remote, apply_from,
}
use zsync.Hub.Apply.{IsNews, item_of, apply_remote_writes}
use zsync.Hub.FanOut.{apply_remote_twice, failed_write_is_lost, duplicate_fans_out}
use zsync.Hub.Local.{IsOwn, local_observed_sends}

abbrev pub board : Backend Memory
board = memory digest

abbrev pub laptop : Hub Memory
laptop = new (codes "laptop") empty_memory (open_state none) 5000

pub laptop-max : 1 < laptop.suppress.max
unfolding new Suppress.new
laptop-max = omega arith

apply_remote_writes_example :
    let hub' = (apply_remote board digest laptop greeting 100).0 in
    (hub'.clipboard ≡ laptop.clipboard)
    ⊎ (IsNews board digest laptop greeting
        × (already_present board digest laptop (codes "05") ≡ false)
        × (hub'.clipboard ≡ (board.set laptop.clipboard (item_of greeting)).0))
apply_remote_writes_example = apply_remote_writes board digest laptop greeting 100

apply_remote_twice_example :
    let hub' = (apply_remote board digest laptop greeting 100).0 in
    (apply_remote board digest hub' greeting 9000).0 ≡ hub'
apply_remote_twice_example = apply_remote_twice board digest laptop greeting 100 9000

abbrev refusing : Backend Memory
refusing = record {
  get = λ m. ok m.inner;
  set = λ m item. (m, err tt);
  headless = λ m. false;
  current_path = λ m. [];
}

greeting-verified : verify_clip digest greeting ≡ ok tt
unfolding verify_clip hash hex_encode
greeting-verified = refl

refused : (apply_remote refusing digest laptop greeting 100).1 ≡ err backend_failed
unfolding apply_remote store verify_clip hash hex_encode new accept default lookup already_present
refused = refl

failed_write_is_lost_example :
    let hub' = (apply_remote refusing digest laptop greeting 100).0 in
    apply_remote refusing digest hub' greeting 200
    ≡ (hub', ok (ack (codes "05") true (codes "duplicate")))
failed_write_is_lost_example =
    failed_write_is_lost refusing digest laptop greeting 100 200 backend_failed refused

duplicate_fans_out_example :
    let hub' = (apply_remote board digest laptop greeting 100).0 in
    (apply_from board digest hub' greeting (codes "tv") 9000).0
    ≡ record hub' { sent = hub'.sent ++ record { clip = greeting; skip = some (codes "tv") } ∷ [] }
duplicate_fans_out_example =
    duplicate_fans_out board digest laptop greeting (codes "tv") 100 9000 greeting-verified

abbrev pub shown : Item
shown = record {
  mime = codes "text/plain";
  content = codes "hello";
  hash = codes "05";
  path = [];
  name = [];
}

pub applied : (apply_remote board digest laptop greeting 100).1 ≡ ok (ack (codes "05") true [])
unfolding apply_remote store verify_clip hash hex_encode new accept default lookup memory
    already_present
applied = refl

abbrev pub own : Clip
own = record greeting { meta = record (greeting.meta) { origin_id = codes "laptop"; seq = 1 } }

pub sent_own : (local_observed board digest laptop shown 100 true).1 ≡ ok (some own)
unfolding local_observed publish broadcast pack next_seq save open_state new Suppress.has
    Suppress.new lookup
sent_own = refl

pub shown-hash : hash_of board digest shown ≡ hash digest shown.content
unfolding hash hex_encode
shown-hash = refl

local_observed_sends_example :
    IsOwn board digest laptop shown (local_observed board digest laptop shown 100 true).0 own
    × (verify_clip digest own ≡ ok tt)
unfolding hash hex_encode
local_observed_sends_example =
    local_observed_sends board digest laptop shown 100 true own sent_own shown-hash refl

abbrev later_item : Item
later_item = record {
  mime = codes "text/plain";
  content = codes "bye";
  hash = [];
  path = [];
  name = [];
}

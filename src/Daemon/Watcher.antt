-- ===== src/Daemon/Watcher.antt =====
-- `watch_clipboard` of src/daemon.rs: what the loop does in each round, as a function of what the
-- two reads of the clipboard give.
pub mod Echoes
mod Examples
use zsync.Base.{
  ltb, leb, eqb, if◌then◌else◌, ltb→lt, lt→ltb, le→ltb, leb→le, eqb_iff, Bool-cases, Option-cases,
  length, get_or, take, drop, replicate, is_empty, any, all, keep, All, length-append, length-drop,
  length-take, take-append, drop-append, take-append-drop, take-length, any-append, length-keep-le,
  Bytes, Text, codes, text_beq, text_beq_iff, text_eq, starts_with, utf8_width, text_len, ◌>>=◌,
  ◌>>◌, fail_if, or_fail, Result-cases, Result, Eq, ◌==◌, nat_eq, ok, err, ℕ, zero, suc, ◌+◌, ◌-◌,
  ◌*◌, ◌/◌, ◌%◌, ◌^◌, ◌≤◌, ◌<◌, min, max, ◌≡◌, refl, sym, ap, ap₂, ◌∙◌, subst, ◌≢◌, ◌↔◌, ◌⊎◌, inl,
  inr, Bool, true, false, not, ◌&&◌, ◌||◌, Option, none, some, List, [], ◌∷◌, ◌++◌, map,
  append_assoc, append-nil, arith,
}
use zsync.Clipboard.{Item, Backend}
use zsync.Hub.{Hub, local_observed}

-- `last` is the content that was handed to the hub last.
pub record Watcher (B : Type 0) : Type 0 where
  pub hub : Hub B
  pub last : Bytes
  pub over : Bool

abbrev pub Reading : Type 0
Reading = Result (Unit {0}) (Option Item)

-- The stop channel changes; or the interval is over, when the clipboard is read, then the stop
-- channel changes or the debounce is over, and the clipboard is read again.
pub data WatchEvent : Type 0 where
  stop_changed : Bool → WatchEvent
  elapsed : Reading → Option Bool → Reading → WatchEvent

-- An item that is not empty.
abbrev pub item_in : Reading → Option Item
item_in (ok (some i)) = if is_empty i.content then none else some i
item_in (ok none) = none
item_in (err e) = none

-- An item that is not empty and was not handed over last.
abbrev pub changed_item : Bytes → Reading → Option Item
changed_item last reading = elim (item_in reading) [
  | none ↦ none
  | some i ↦ if i.content == last then none else some i
]

abbrev pub stops : Option Bool → Bool
stops none = false
stops (some stop) = stop

module _ {B : Type 0} (backend : Backend B) (sha256 : Bytes → Bytes) where
  -- An error of `local_observed` is only logged.
  unfoldable pub observe : Watcher B → Item → ℕ → Bool → Watcher B
  observe w item now saves = record w {
    hub = (local_observed backend sha256 w.hub item now saves).0;
    last = item.content;
  }

  unfoldable pub round : Watcher B → WatchEvent → ℕ → Bool → Watcher B
  round w (stop_changed stop) now saves = if stop then record w { over = true } else w
  round w (elapsed first stop second) now saves = elim (changed_item w.last first) [
    | none ↦ w
    | some _ ↦
        if stops stop
        then record w { over = true }
        else (elim (changed_item w.last second) [ none ↦ w | some item ↦ observe w item now saves ])
  ]

  unfoldable pub watch : Watcher B → WatchEvent → ℕ → Bool → Watcher B
  unfolding round
  watch w e now saves = if w.over then w else round w e now saves

  -- The clock of each round, and whether the disk takes a write in it.
  unfoldable pub watch_all : Watcher B → List (WatchEvent × ℕ × Bool) → Watcher B
  unfolding watch
  watch_all w [] = w
  watch_all w ((e, now, saves) ∷ rest) = watch_all (watch w e now saves) rest

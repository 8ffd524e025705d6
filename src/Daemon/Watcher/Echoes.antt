-- ===== src/Daemon/Watcher/Echoes.antt =====
-- What the watcher hands to the hub, and what it does not.
use zsync.Base.{
  if◌then◌else◌, Bool-cases, Option-cases, is_empty, All, Bytes, text_beq, text_beq_iff, text_eq,
  nat_eq, ok, ℕ, ◌<◌, ◌≡◌, refl, sym, subst, ap, ◌∙◌, inl, inr, Bool, true, false, Option, none,
  some, List, [], ◌∷◌, arith,
}
use zsync.Protocol.{Clip, ClipAck}
use zsync.Clipboard.{Item, Backend}
use zsync.Hub.{hash_of, local_observed, apply_remote}
use zsync.Hub.Echo.{echo_dropped}
use zsync.Daemon.Watcher.{
  Watcher, Reading, WatchEvent, stop_changed, elapsed, item_in, changed_item, stops, observe, round,
  watch, watch_all,
}

-- The round reads this content twice, or an empty clipboard, or none.
abbrev pub Reads : Bytes → Reading → Type 0
Reads content reading = (i : Item) → item_in reading ≡ some i → i.content ≡ content

abbrev pub Shows : Bytes → WatchEvent → Type 0
Shows content (stop_changed stop) = stop ≡ false
Shows content (elapsed first stop second) = Reads content first

unchanged :
    (last : Bytes) (reading : Reading) → Reads last reading → changed_item last reading ≡ none
unchanged last reading same = elim (Option-cases (item_in reading)) [
  | inl nothing ↦ rw (nothing, changed_item) refl
  | inr (i, there) ↦ rw (there, changed_item, (text_beq_iff i.content last).1 (same i there)) refl
]

-- A changed item is an item that was read.
changed :
    (last : Bytes) (reading : Reading) (i : Item)
    → changed_item last reading ≡ some i
    → item_in reading ≡ some i
changed last reading i h = elim (Option-cases (item_in reading)) [
  | inl nothing ↦ absurd (ground (arith, nothing))
  | inr (j, there) ↦ elim (Bool-cases (text_beq j.content last)) [
    | inl y ↦ absurd (ground (arith, there, y))
    | inr n ↦ ground (arith, there, n)
  ]
]

if-same : {A : Type 0} (b : Bool) (x : A) → (if b then x else x) ≡ x
if-same true x = refl
if-same false x = refl

module _ {B : Type 0} (backend : Backend B) (sha256 : Bytes → Bytes) where
  idle :
      (w : Watcher B) (e : WatchEvent) (now : ℕ) (saves : Bool)
      → Shows w.last e
      → watch backend sha256 w e now saves ≡ w
  unfolding watch round
  idle w (stop_changed stop) now saves h = rw h (if-same w.over w)
  idle w (elapsed first stop second) now saves h =
      rw (round, unchanged w.last first h) (if-same w.over w)

  idle_rounds :
      (w : Watcher B) (rounds : List (WatchEvent × ℕ × Bool))
      → All (λ r. Shows w.last r.0) rounds
      → watch_all backend sha256 w rounds ≡ w
  unfolding watch_all
  idle_rounds w [] h = refl
  idle_rounds w ((e, now, saves) ∷ rest) (h, hs) =
      ap (λ v. watch_all backend sha256 v rest) (idle w e now saves h) ∙ idle_rounds w rest hs

  -- The watcher, which is not over, reads a changed item before the debounce and `item` after it,
  -- and is not told to stop. Then it hands `item` to the hub, and where the clipboard shows nothing
  -- but that content, or nothing, in all later rounds, and none tells the watcher to stop, they
  -- leave the watcher and the hub as they are, also where the hub failed on the item.
  pub same_content_observed_once :
      (w : Watcher B) (first second : Reading) (stop : Option Bool) (before item : Item) (now : ℕ)
      (saves : Bool) (rounds : List (WatchEvent × ℕ × Bool))
      → w.over ≡ false
      → stops stop ≡ false
      → changed_item w.last first ≡ some before
      → changed_item w.last second ≡ some item
      → All (λ r. Shows item.content r.0) rounds
      → let v = watch backend sha256 w (elapsed first stop second) now saves in
        (v.hub ≡ (local_observed backend sha256 w.hub item now saves).0)
        × (watch_all backend sha256 v rounds ≡ v)
  unfolding watch round observe
  same_content_observed_once w first second stop before item now saves rounds on going seen there
        shows =
      (
        ap (λ v. v.hub) handed,
        idle_rounds v rounds
            (subst (λ l. All (λ r. Shows l r.0) rounds) (sym (ap (λ u. u.last) handed)) shows),
      )
    where
      v : Watcher B
      v = watch backend sha256 w (elapsed first stop second) now saves

      handed : v ≡ observe backend sha256 w item now saves
      handed = ground (arith, on, seen, going, there)

  -- The hub stays as it is where it drops the item that the round hands to it.
  hub_stays :
      (v : Watcher B) (first second : Reading) (stop : Option Bool) (now : ℕ) (saves : Bool)
      → ((i : Item)
          → changed_item v.last second ≡ some i
          → (local_observed backend sha256 v.hub i now saves).0 ≡ v.hub)
      → (watch backend sha256 v (elapsed first stop second) now saves).hub ≡ v.hub
  unfolding watch round observe
  hub_stays v first second stop now saves drops = elim (Bool-cases v.over) [
    | inl y ↦ rw y refl
    | inr n ↦ elim (Option-cases (changed_item v.last first)) [
      | inl nothing ↦ rw (n, round, nothing) refl
      | inr (i, some_there) ↦ elim (Bool-cases (stops stop)) [
        | inl told ↦ rw (n, round, some_there, told) refl
        | inr on ↦ elim (Option-cases (changed_item v.last second)) [
          | inl nothing ↦ rw (n, round, some_there, on, nothing) refl
          | inr (j, there) ↦ rw (n, round, some_there, on, there) (drops j there)
        ]
      ]
    ]
  ]

  -- A clip from a peer was applied and acknowledged without a reason, under a hash that is not
  -- empty, and the table of suppressed hashes keeps at least one. In the next round of the watcher,
  -- whatever it reads first, an item that it reads after the debounce has the acknowledged hash.
  -- Then the hub stays as it is: nothing is sent back.
  pub applied_clip_not_sent_back :
      (w : Watcher B) (clip : Clip) (now later : ℕ) (saves : Bool) (a : ClipAck)
      (first second : Reading) (stop : Option Bool)
      → 0 < w.hub.suppress.max
      → (apply_remote backend sha256 w.hub clip now).1 ≡ ok a
      → a.reason ≡ []
      → is_empty a.hash ≡ false
      → ((i : Item) → item_in second ≡ some i → hash_of backend sha256 i ≡ a.hash)
      → let hub' = (apply_remote backend sha256 w.hub clip now).0 in
        (watch backend sha256 (record w { hub = hub' }) (elapsed first stop second) later saves).hub
        ≡ hub'
  unfolding watch round observe
  applied_clip_not_sent_back w clip now later saves a first second stop room applied quiet named
        same =
      hub_stays (record w { hub = (apply_remote backend sha256 w.hub clip now).0 }) first second
        stop later saves
        (λ i h.
          ap (λ o. o.0)
            (echo_dropped backend sha256 w.hub clip now later saves i a room applied quiet named
              (same i (changed w.last second i h))))

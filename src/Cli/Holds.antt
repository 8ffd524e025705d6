-- ===== src/Cli/Holds.antt =====
-- What the clipboard holds once something was written to it, by the daemon or without it.
use zsync.Base.{
  ltb, if◌then◌else◌, Bool-cases, length, is_empty, Bytes, Text, text_eq, Result-cases, nat_eq, ok,
  err, ℕ, ◌≡◌, refl, ap, ◌∙◌, inl, inr, Bool, true, false, some, arith,
}
use zsync.Protocol.{hash}
use zsync.Protocol.{max_clip, Clip}
use zsync.Clipboard.{Item, Backend, new_item}
use zsync.Hub.{Hub, Outcome, pack, broadcast, hash_of, local_push}
use zsync.Daemon.Dispatch.{done}
use zsync.Cli.{Machine, running, stopped, bare_item}

-- An item that came without a hash or with the right one.
abbrev pub IsHashed : (Bytes → Bytes) → Item → Type 0
IsHashed sha256 item =
    (if is_empty item.hash then hash sha256 item.content else item.hash) ≡ hash sha256 item.content

-- What a clipboard that is read after it was written gives: a law of the backends, for items
-- without a name.
pub record Keeps {B : Type 0} (backend : Backend B) (sha256 : Bytes → Bytes) : Type 0 where
  pub kept :
      (b : B) (item stored : Item)
      → is_empty item.name ≡ true
      → IsHashed sha256 item
      → (backend.set b item).1 ≡ ok stored
      → (backend.get (backend.set b item).0 ≡ ok (some stored)) × (stored.content ≡ item.content)

same_either : (b : Bool) (h : Text) → (if b then h else h) ≡ h
same_either true h = refl
same_either false h = refl

pub new_item-IsHashed :
    (sha256 : Bytes → Bytes) (mime : Text) (data_bytes : Bytes)
    → IsHashed sha256 (new_item sha256 mime data_bytes)
unfolding new_item
new_item-IsHashed sha256 mime data_bytes =
    same_either (is_empty (hash sha256 data_bytes)) (hash sha256 data_bytes)

abbrev pub clipboard_of : {B : Type 0} → Machine B → B
clipboard_of (running rt) = rt.hub.clipboard
clipboard_of (stopped b) = b

-- The clipboard gives an item with this content.
abbrev pub Holds : {B : Type 0} → Backend B → B → Bytes → Type 0
Holds backend b data_bytes =
    (item : Item) × (backend.get b ≡ ok (some item)) × (item.content ≡ data_bytes)

module _ {B : Type 0} (backend : Backend B) (sha256 : Bytes → Bytes)
    (keeps : Keeps backend sha256) where
  broadcast-clipboard : (out : Outcome B Clip) → (broadcast out).0.clipboard ≡ out.0.clipboard
  unfolding broadcast
  broadcast-clipboard (hub, ok clip) = refl
  broadcast-clipboard (hub, err e) = refl

  pub local_push-Holds :
      (hub : Hub B) (item : Item) (now : ℕ) (saves : Bool) (clip : Clip)
      → is_empty item.name ≡ true
      → IsHashed sha256 item
      → (local_push backend sha256 hub item now saves).1 ≡ ok clip
      → Holds backend (local_push backend sha256 hub item now saves).0.clipboard item.content
  unfolding local_push pack
  local_push-Holds hub item now saves clip bare hashed done =
      elim (Bool-cases (ltb max_clip (length item.content))) [
        | inl big ↦ absurd (ground (arith, big))
        | inr fits ↦ elim (Result-cases (backend.set hub.clipboard filled).1) [
          | inl (e, bad) ↦ absurd (refused fits e bad)
          | inr (stored, good) ↦
              let (read, same) = keeps.kept hub.clipboard filled stored bare filled-IsHashed good in
              (stored, ap backend.get (written fits stored good) ∙ read, same)
        ]
      ]
    where
      filled : Item
      filled = record item { hash = hash_of backend sha256 item }

      filled-IsHashed : IsHashed sha256 filled
      filled-IsHashed =
          ap (λ h. if is_empty h then hash sha256 item.content else h) hashed
          ∙ same_either (is_empty (hash sha256 item.content)) (hash sha256 item.content)

      refused :
          ltb max_clip (length item.content) ≡ false
          → (e : Unit {0}) → (backend.set hub.clipboard filled).1 ≡ err e
          → ⊥
      refused fits e bad = absurd (cc (rw (local_push, fits, bad) at done))

      written :
          ltb max_clip (length item.content) ≡ false
          → (stored : Item) → (backend.set hub.clipboard filled).1 ≡ ok stored
          → (local_push backend sha256 hub item now saves).0.clipboard
            ≡ (backend.set hub.clipboard filled).0
      written fits stored good =
          rw (local_push, fits, good)
            (broadcast-clipboard (pack _ stored.mime stored.name stored.content stored.hash saves))

  pub set-Holds :
      (b : B) (data_bytes : Bytes) (stored : Item)
      → (backend.set b (bare_item data_bytes)).1 ≡ ok stored
      → Holds backend (backend.set b (bare_item data_bytes)).0 data_bytes
  set-Holds b data_bytes stored done =
      let (read, same) = keeps.kept b (bare_item data_bytes) stored refl refl done in
      (stored, read, same)

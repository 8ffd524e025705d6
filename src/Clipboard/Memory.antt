-- ===== src/Clipboard/Memory.antt =====
-- The in-memory clipboard of src/clipboard/mod.rs.
use zsync.Base.{
  if◌then◌else◌, is_empty, Bytes, text_eq, Result, nat_eq, ok, false, Option, none, some, [],
}
use zsync.Protocol.{hash}
use zsync.Clipboard.{Item, Backend}

pub record Memory : Type 0 where
  pub inner : Option Item

abbrev pub empty_memory : Memory
empty_memory = record { inner = none }

memory_set : (Bytes → Bytes) → Memory → Item → Memory × Result (Unit {0}) Item
memory_set sha256 m item =
    let stored =
      (if is_empty item.hash then record item { hash = hash sha256 item.content } else item) in
    (record { inner = some stored }, ok stored)

unfoldable pub memory : (Bytes → Bytes) → Backend Memory
unfolding memory_set
memory sha256 = record {
  get = λ m. ok m.inner;
  set = memory_set sha256;
  headless = λ m. false;
  current_path = λ m. [];
}

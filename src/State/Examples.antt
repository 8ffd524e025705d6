-- ===== src/State/Examples.antt =====
-- A file with two saved peers.
use zsync.Base.{
  length, codes, text_eq, nat_eq, ◌+◌, ◌^◌, ◌<◌, refl, true, false, Option, some, List, [], ◌∷◌,
  arith,
}
use zsync.State.{State, open_state}
use zsync.State.Sequence.{Event, draw, restart, Increasing, disk_seq, numbers, numbers_rise}
use zsync.State.Peers.{Unique}

abbrev disk : Option State
disk = some (record {
  seq = 41;
  peers =
      record { uri = codes "a:1"; enabled = true }
      ∷ record { uri = codes "b:2"; enabled = false }
      ∷ [];
})

abbrev events : List Event
events = draw true ∷ draw false ∷ restart ∷ draw true ∷ []

few : (open_state disk).inner.seq + length events < 2 ^ 64
unfolding open_state
few = omega arith

numbers_rise_example : Increasing (disk_seq (open_state disk)) (numbers (open_state disk) events)
numbers_rise_example = numbers_rise disk events few

opened-Unique : Unique (open_state disk).inner.peers
unfolding open_state
opened-Unique = (refl, (refl, tt))

-- ===== src/State/Sequence.antt =====
-- The sequence numbers of `StateFile` (src/config.rs), through draws and restarts.
use zsync.Base.{
  length, text_eq, nat_eq, ℕ, suc, ◌+◌, ◌^◌, ◌≤◌, ◌<◌, ◌≡◌, sym, subst, ◌⊎◌, inl, inr, Bool, Option,
  none, some, List, [], ◌∷◌, arith,
}
use zsync.State.{StateFile, State, open_state, next_seq}

-- What happens to the file: a number is drawn, with a disk that takes the write or does not, or
-- the program starts anew from what is on disk.
pub data Event : Type 0 where
  draw : Bool → Event
  restart : Event

-- The file after an event, and the number that it handed out.
unfoldable pub step : StateFile → Event → StateFile × Option ℕ
unfolding next_seq open_state
step f (draw saves) = next_seq f saves
step f restart = (open_state f.disk, none)

abbrev also : Option ℕ → List ℕ → List ℕ
also none ns = ns
also (some n) ns = n ∷ ns

-- The numbers handed out by a run, the first one first.
unfoldable pub numbers : StateFile → List Event → List ℕ
unfolding step
numbers f [] = []
numbers f (e ∷ es) = also (step f e).1 (numbers (step f e).0 es)

abbrev pub disk_seq : StateFile → ℕ
disk_seq f = elim f.disk [ none ↦ 0 | some s ↦ s.seq ]

-- The memory is never behind the disk, and has room for `k` more numbers.
record Ahead (f : StateFile) (k : ℕ) : Type 0 where
  ahead : disk_seq f ≤ f.inner.seq
  room : f.inner.seq + k < 2 ^ 64

-- Larger than `n`, and each larger than the one before it.
abbrev pub Increasing : ℕ → List ℕ → Type 0
Increasing n [] = Unit
Increasing n (m ∷ ms) = (n < m) × Increasing m ms

Increasing-mono : (m n : ℕ) (ms : List ℕ) → m ≤ n → Increasing n ms → Increasing m ms
Increasing-mono m n [] h i = tt
Increasing-mono m n (x ∷ xs) h i = (omega arith, i.1)

step-Ahead : (f : StateFile) (e : Event) (k : ℕ) → Ahead f (suc k) → Ahead (step f e).0 k
unfolding step
step-Ahead f (draw saves) k a = ground arith
step-Ahead f restart k a = ground arith

-- What a draw hands out is on disk from then on.
step_out :
    (f : StateFile) (e : Event) (k : ℕ)
    → Ahead f (suc k)
    → ((step f e).1 ≡ none) × (disk_seq f ≤ disk_seq (step f e).0)
      ⊎ ((step f e).1 ≡ some (disk_seq (step f e).0)) × (disk_seq f < disk_seq (step f e).0)
unfolding step
step_out f (draw saves) k a = ground arith
step_out f restart k a = ground arith

also-Increasing :
    (o : Option ℕ) (a b : ℕ) (ns : List ℕ)
    → ((o ≡ none) × (a ≤ b)) ⊎ ((o ≡ some b) × (a < b))
    → Increasing b ns
    → Increasing a (also o ns)
also-Increasing none a b ns (inl (_, le)) i = Increasing-mono a b ns le i
also-Increasing none a b ns (inr (e, _)) i = cc
also-Increasing (some n) a b ns (inl (e, _)) i = cc
also-Increasing (some n) a b ns (inr (e, lt)) i =
    let same : n ≡ b = ground arith in (omega arith, subst (λ x. Increasing x ns) (sym same) i)

numbers-Increasing :
    (f : StateFile) (es : List Event) → Ahead f (length es) → Increasing (disk_seq f) (numbers f es)
unfolding numbers
numbers-Increasing f [] a = tt
numbers-Increasing f (e ∷ es) a =
    also-Increasing (step f e).1 _ _ _ (step_out f e (length es) a)
      (numbers-Increasing (step f e).0 es (step-Ahead f e (length es) a))

-- From any state of the disk, through draws whose write succeeds or fails and restarts in any
-- order, the numbers handed out rise strictly above the number on disk, as long as 64 bits suffice.
pub numbers_rise :
    (disk : Option State) (es : List Event)
    → (open_state disk).inner.seq + length es < 2 ^ 64
    → Increasing (disk_seq (open_state disk)) (numbers (open_state disk) es)
unfolding open_state
numbers_rise disk es room =
    numbers-Increasing (open_state disk) es (record { ahead = ground arith; room = room })

-- ===== src/Suppress/Seen.antt =====
-- `SeenSeq` of src/suppress.rs: the highest applied sequence number of each origin.
use zsync.Base.{
  ltb, leb, if◌then◌else◌, Text, text_beq_iff, text_eq, ◌==◌, nat_eq, ℕ, ◌≤◌, ◌≡◌, refl, Bool, true,
  false, not, ◌&&◌, ◌||◌, Option, none, some, List, [], ◌∷◌, arith,
}
use zsync.Base.Map.{Map, lookup, insert, lookup-insert}

pub record SeenSeq : Type 0 where
  pub last : Map Text ℕ

unfoldable pub default : SeenSeq
default = record { last = [] }

unfoldable pub accept : SeenSeq → Text → ℕ → SeenSeq × Bool
accept s origin seq =
    let fresh : SeenSeq × Bool = (record s { last = insert origin seq s.last }, true) in
    elim (lookup origin s.last) [
      | none ↦ fresh
      | some prev ↦ if leb seq prev then (s, false) else fresh
    ]

-- The table after a history of offers, the newest first.
pub offered : List (Text × ℕ) → SeenSeq
unfolding default
offered [] = default
offered ((origin, seq) ∷ log) = (accept (offered log) origin seq).0

-- Every earlier offer of this origin has a smaller number.
abbrev pub exceeds : Text → ℕ → List (Text × ℕ) → Bool
exceeds origin seq [] = true
exceeds origin seq ((p, r) ∷ log) = (not (p == origin) || ltb r seq) && exceeds origin seq log

highest : Text → List (Text × ℕ) → Option ℕ
highest origin [] = none
highest origin ((p, r) ∷ log) =
    if p == origin
    then elim (highest origin log) [ none ↦ some r | some m ↦ some (if leb r m then m else r) ]
    else highest origin log

lookup-offered :
    (origin : Text) (log : List (Text × ℕ)) → lookup origin (offered log).last ≡ highest origin log
unfolding offered highest accept lookup default
lookup-offered origin [] = refl
lookup-offered origin ((p, r) ∷ log) = ground (
  arith,
  lookup-offered origin log,
  lookup-offered p log,
  lookup-insert p origin r (offered log).last,
  text_beq_iff p origin,
)

abbrev above : ℕ → Option ℕ → Bool
above seq none = true
above seq (some m) = ltb m seq

exceeds-highest :
    (origin : Text) (seq : ℕ) (log : List (Text × ℕ))
    → exceeds origin seq log ≡ above seq (highest origin log)
unfolding highest
exceeds-highest origin seq [] = refl
exceeds-highest origin seq ((p, r) ∷ log) = ground (arith, exceeds-highest origin seq log)

-- After any history of offers a frame is accepted exactly when its number is larger than every
-- number that was offered before for the same origin, accepted or not.
pub accept-offered :
    (log : List (Text × ℕ)) (origin : Text) (seq : ℕ)
    → (accept (offered log) origin seq).1 ≡ exceeds origin seq log
unfolding accept
accept-offered log origin seq =
    ground (arith, lookup-offered origin log, exceeds-highest origin seq log)

-- Once a frame has been offered, a frame of the same origin with that number or a smaller one is
-- refused and leaves the table as it is, whatever the table held before.
pub accept-replay :
    (s : SeenSeq) (origin : Text) (seq stale : ℕ)
    → stale ≤ seq
    → accept (accept s origin seq).0 origin stale ≡ ((accept s origin seq).0, false)
unfolding accept
accept-replay s origin seq stale h =
    ground (arith, lookup-insert origin origin seq s.last, text_beq_iff origin origin)

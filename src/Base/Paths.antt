-- ===== src/Base/Paths.antt =====
-- What the source uses of `std::path` and of `str`, for Unix paths.
use zsync.Base.Tests.{leb, eqb, if◌then◌else◌}
use zsync.Base.Strings.{Text, text_eq, starts_with, ◌==◌}
use zsync.Base.Lists.{is_empty, keep}
use Prim.Native.Nat.{ℕ, ◌+◌}
use mathlib.Core.Bool.{Bool, not, ◌&&◌, ◌||◌}
use mathlib.Core.List.{List, [], ◌∷◌, map}
use mathlib.Core.Option.{Option, none, some}

-- `str::split` at a character.
abbrev pub split_on : ℕ → Text → List Text
split_on sep [] = [] ∷ []
split_on sep (c ∷ s) = elim (split_on sep s) [
  | [] ↦ (c ∷ []) ∷ []
  | part ∷ parts ↦ if eqb c sep then [] ∷ part ∷ parts else (c ∷ part) ∷ parts
]

-- `str::lines`: a line ends with a line feed, or with a carriage return and a line feed.
abbrev pub strip_cr : Text → Text
strip_cr [] = []
strip_cr (c ∷ []) = if eqb c 13 then [] else c ∷ []
strip_cr (c ∷ d ∷ s) = c ∷ strip_cr (d ∷ s)

abbrev pub ended_lines : List Text → List Text
ended_lines [] = []
ended_lines (part ∷ []) = if is_empty part then [] else part ∷ []
ended_lines (part ∷ next ∷ parts) = strip_cr part ∷ ended_lines (next ∷ parts)

unfoldable pub lines : Text → List Text
lines s = ended_lines (split_on 10 s)

-- `str::contains` of a text.
abbrev pub contains : Text → Text → Bool
contains [] part = is_empty part
contains (c ∷ s) part = starts_with (c ∷ s) part || contains s part

abbrev pub last {ℓ} : {A : Type ℓ} → List A → Option A
last [] = none
last (x ∷ xs) = elim (last xs) [ none ↦ some x | some y ↦ some y ]

-- `Path::file_name`: the last component, if it is a name. Empty components and `.` do not count.
unfoldable pub file_name : Text → Option Text
file_name path =
    elim (last (keep (λ part. not (is_empty part || part == b'.' ∷ [])) (split_on b'/' path))) [
      | none ↦ none
      | some part ↦ if part == b'.' ∷ b'.' ∷ [] then none else some part
    ]

-- A text cut at the last place of a character: `rsplit_once`.
abbrev pub rsplit_once : ℕ → Text → Option (Text × Text)
rsplit_once sep [] = none
rsplit_once sep (c ∷ s) = elim (rsplit_once sep s) [
  | some (before, after) ↦ some (c ∷ before, after)
  | none ↦ if eqb c sep then some ([], s) else none
]

-- `split_once`: cut at the first place.
abbrev pub split_once : ℕ → Text → Option (Text × Text)
split_once sep [] = none
split_once sep (c ∷ s) =
    let found : Option (Text × Text) = elim (split_once sep s) [
      | some (before, after) ↦ some (c ∷ before, after)
      | none ↦ none
    ] in
    if eqb c sep then some ([], s) else found

-- `Path::extension`: what follows the last dot of the file name, which must not start it.
unfoldable pub extension : Text → Option Text
unfolding file_name
extension path = elim (file_name path) [
  | none ↦ none
  | some name ↦ elim (rsplit_once b'.' name) [
    | none ↦ none
    | some (before, after) ↦ if is_empty before then none else some after
  ]
]

abbrev pub ascii_lower : ℕ → ℕ
ascii_lower c = if leb b'A' c && leb c b'Z' then c + 32 else c

-- `str::to_ascii_lowercase`.
abbrev pub to_ascii_lowercase : Text → Text
to_ascii_lowercase = map ascii_lower

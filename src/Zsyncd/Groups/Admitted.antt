-- ===== src/Zsyncd/Groups/Admitted.antt =====
-- The groups that the server admits, by its file.
use zsync.Base.{
  if◌then◌else◌, Bool-cases, Option-cases, any, keep, Text, text_beq_iff, text_eq, ◌==◌, nat_eq,
  ◌≡◌, refl, sym, ap, ◌∙◌, subst, inl, inr, Bool, true, false, not, ◌&&◌, Option, none, some, [],
  ◌∷◌, arith,
}
use zsync.Base.Map.{Map, lookup, insert, lookup-insert}
use zsync.Zsyncd.Groups.{
  GroupRec, GroupsFile, enable_first, Disk, Allowlist, same_time, collect, refresh, get, is_enabled,
}

abbrev or_else : Option GroupRec → Option GroupRec → Option GroupRec
or_else none d = d
or_else (some g) d = some g

-- The last record of this id.
unfoldable pub find_last : Text → GroupsFile → Option GroupRec
find_last id [] = none
find_last id (g ∷ gs) = or_else (find_last id gs) (if g.id == id then some g else none)

lookup-collect :
    (id : Text) (gs : GroupsFile) (m : Map Text GroupRec)
    → lookup id (collect m gs) ≡ or_else (find_last id gs) (lookup id m)
unfolding collect find_last
lookup-collect id [] m = refl
lookup-collect id (g ∷ gs) m = lookup-collect id gs (insert g.id g m) ∙ later (find_last id gs)
  where
    later :
        (o : Option GroupRec)
        → or_else o (lookup id (insert g.id g m))
          ≡ or_else (or_else o (if g.id == id then some g else none)) (lookup id m)
    later none = lookup-insert g.id id g m ∙ (ground arith)
    later (some h) = refl

or_else-none : (o : Option GroupRec) → or_else o none ≡ o
or_else-none none = refl
or_else-none (some g) = refl

-- The list was read when the file was as it is now, or has to be read again.
abbrev pub IsStale : Allowlist → Disk → Type 0
IsStale a disk = (same_time disk.mtime a.mtime ≡ false) × (disk.exists ≡ true)

pub get-find_last :
    (a : Allowlist) (disk : Disk) (id : Text)
    → IsStale a disk
    → (get a disk id).1 ≡ find_last id disk.file
unfolding get refresh lookup find_last
get-find_last a disk id (newer, there) =
    rw (newer, there, second (same_time disk.mtime none))
      (lookup-collect id disk.file [] ∙ or_else-none (find_last id disk.file))
  where
    second : (b : Bool) → (b && not true) ≡ false
    second true = refl
    second false = refl

pub find_last-keep :
    (id other : Text) (gs : GroupsFile)
    → find_last other (keep (λ g. not (g.id == id)) gs)
      ≡ (if id == other then none else find_last other gs)
unfolding find_last
find_last-keep id other [] = ground arith
find_last-keep id other (g ∷ gs) = ground (
  arith,
  find_last-keep id other gs,
  text_beq_iff g.id id,
  text_beq_iff g.id other,
  text_beq_iff id other,
)

-- Every group is listed once.
abbrev pub Unique : GroupsFile → Type 0
Unique [] = Unit
Unique (g ∷ gs) = (any (λ h. h.id == g.id) gs ≡ false) × Unique gs

find_last-absent :
    (id : Text) (gs : GroupsFile) → any (λ g. g.id == id) gs ≡ false → find_last id gs ≡ none
unfolding find_last
find_last-absent id [] h = refl
find_last-absent id (g ∷ gs) h = ground (arith, find_last-absent id gs)

abbrev with_flag : Bool → Option GroupRec → Option GroupRec
with_flag enabled none = none
with_flag enabled (some g) = some (record g { enabled = enabled })

find_last-enable_first :
    (id other : Text) (enabled : Bool) (gs : GroupsFile)
    → Unique gs
    → find_last other (enable_first id enabled gs)
      ≡ (if id == other then with_flag enabled (find_last other gs) else find_last other gs)
unfolding find_last enable_first
find_last-enable_first id other enabled [] u = ground arith
find_last-enable_first id other enabled (g ∷ gs) (once, u) = elim (Bool-cases (g.id == id)) [
  | inl same ↦
      let gone : find_last id gs ≡ none =
        find_last-absent id gs
          (subst (λ k. any (λ h. h.id == k) gs ≡ false) ((text_beq_iff g.id id).0 same) once) in
      ground (arith, gone, text_beq_iff g.id id, text_beq_iff g.id other, text_beq_iff id other)
  | inr differs ↦ ground (
    arith,
    find_last-enable_first id other enabled gs u,
    text_beq_iff g.id id,
    text_beq_iff g.id other,
    text_beq_iff id other,
  )
]

clash : (g : GroupRec) → some g ≡ none → ⊥
clash g e = ground arith

find_last-present :
    (id : Text) (gs : GroupsFile)
    → any (λ g. g.id == id) gs ≡ true
    → (g : GroupRec) × (find_last id gs ≡ some g)
unfolding find_last
find_last-present id [] h = absurd (ground arith)
find_last-present id (g ∷ gs) h = elim (Option-cases (find_last id gs)) [
  | inr (later, e) ↦ (later, rw e refl)
  | inl e ↦ elim (Bool-cases (g.id == id)) [
    | inl same ↦ (g, rw (e, same) refl)
    | inr differs ↦
        let (later, found) = find_last-present id gs (rw differs at h) in
        absurd (clash later (sym found ∙ e))
  ]
]

is_enabled-with_flag :
    (enabled : Bool) (o : Option GroupRec) (g : GroupRec)
    → o ≡ some g
    → is_enabled (with_flag enabled o) ≡ enabled
is_enabled-with_flag enabled o g e = rw e refl

pub flag_after :
    (id other : Text) (enabled : Bool) (file : GroupsFile)
    → Unique file
    → any (λ g. g.id == id) file ≡ true
    → is_enabled (find_last other (enable_first id enabled file))
      ≡ (if id == other then enabled else is_enabled (find_last other file))
flag_after id other enabled file u there =
    ap is_enabled (find_last-enable_first id other enabled file u)
    ∙ elim (Bool-cases (id == other)) [
      | inl same ↦
          let (g, found) = find_last-present other file (
            subst (λ k. any (λ h. h.id == k) file ≡ true) ((text_beq_iff id other).0 same) there) in
          rw same (is_enabled-with_flag enabled (find_last other file) g found)
      | inr differs ↦ rw differs refl
    ]

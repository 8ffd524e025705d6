-- ===== src/Zsyncd/Groups/Commands.antt =====
-- What the commands on the groups file do to the groups that the server admits.
use zsync.Base.{
  if◌then◌else◌, Bool-cases, length, any, keep, Text, text_eq, Result-cases, ◌==◌, nat_eq, ok, err,
  ◌≡◌, refl, ap, ◌∙◌, inl, inr, Bool, true, false, not, none, arith,
}
use zsync.Zsyncd.Groups.{
  GroupsFile, ServerError, canonical, save_groups, enable_first, set_enabled, remove_group, Disk,
  Allowlist, get, is_enabled,
}
use zsync.Zsyncd.Groups.Admitted.{
  find_last, get-find_last, find_last-keep, flag_after, Unique, IsStale,
}

-- What was saved, if the command succeeded.
saved_file : (file out : GroupsFile) (saves : Bool) → save_groups file saves ≡ ok out → out ≡ file
unfolding save_groups
saved_file file out saves h = ground arith

set_enabled-enable_first :
    (file out : GroupsFile) (group_id : Text) (enabled saves : Bool)
    → set_enabled file group_id enabled saves ≡ ok out
    → (id : Text) × (canonical group_id ≡ ok id)
      × (any (λ g. g.id == id) file ≡ true)
      × (out ≡ enable_first id enabled file)
unfolding set_enabled
set_enabled-enable_first file out group_id enabled saves h =
    elim (Result-cases (canonical group_id)) [
      | inl (e, bad) ↦ absurd (failed e bad)
      | inr (id, good) ↦ elim (Bool-cases (any (λ g. g.id == id) file)) [
        | inl there ↦ (id, good, there, saved_file _ out saves (rw (good, there) at h))
        | inr missing ↦ absurd (unknown id good missing)
      ]
    ]
  where
    failed : (e : ServerError) → canonical group_id ≡ err e → ⊥
    failed e bad = ground arith

    unknown : (id : Text) → canonical group_id ≡ ok id → any (λ g. g.id == id) file ≡ false → ⊥
    unknown id good missing = ground arith

-- `set_enabled` succeeds on a file that lists every group once, and the server then finds the new
-- file, with another time of modification than it knows. The group of the canonical id is admitted
-- if and only if it was enabled by the command, and every other group as the old file says.
pub get-set_enabled :
    (file : GroupsFile) (group_id other : Text) (enabled saves : Bool) (a : Allowlist) (disk : Disk)
    → Unique file
    → set_enabled file group_id enabled saves ≡ ok disk.file
    → IsStale a disk
    → (id : Text) × (canonical group_id ≡ ok id)
      × (is_enabled (get a disk other).1
          ≡ (if id == other then enabled else is_enabled (find_last other file)))
get-set_enabled file group_id other enabled saves a disk u h stale =
    let (id, good, there, same) =
      set_enabled-enable_first file disk.file group_id enabled saves h in
    (
      id,
      good,
      ap is_enabled (get-find_last a disk other stale ∙ ap (find_last other) same)
          ∙ flag_after id other enabled file u there,
    )

remove_group-keep :
    (file out : GroupsFile) (group_id : Text) (saves : Bool)
    → remove_group file group_id saves ≡ ok out
    → (id : Text) × (canonical group_id ≡ ok id) × (out ≡ keep (λ g. not (g.id == id)) file)
unfolding remove_group
remove_group-keep file out group_id saves h = elim (Result-cases (canonical group_id)) [
  | inl (e, bad) ↦ absurd (failed e bad)
  | inr (id, good) ↦ elim (Bool-cases (length (keep (λ g. not (g.id == id)) file) == length file)) [
    | inr shorter ↦ (id, good, saved_file _ out saves (rw (good, shorter) at h))
    | inl unchanged ↦ absurd (unknown id good unchanged)
  ]
]
  where
    failed : (e : ServerError) → canonical group_id ≡ err e → ⊥
    failed e bad = ground arith

    unknown :
        (id : Text)
        → canonical group_id ≡ ok id
        → (length (keep (λ g. not (g.id == id)) file) == length file) ≡ true
        → ⊥
    unknown id good unchanged = ground arith

-- `remove_group` succeeds, and the server then finds the new file, with another time of
-- modification than it knows. The group of the canonical id is not admitted, and every other group
-- as the old file says.
pub get-remove_group :
    (file : GroupsFile) (group_id other : Text) (saves : Bool) (a : Allowlist) (disk : Disk)
    → remove_group file group_id saves ≡ ok disk.file
    → IsStale a disk
    → (id : Text) × (canonical group_id ≡ ok id)
      × (is_enabled (get a disk other).1
          ≡ (if id == other then false else is_enabled (find_last other file)))
get-remove_group file group_id other saves a disk h stale =
    let (id, good, same) = remove_group-keep file disk.file group_id saves h in
    (
      id,
      good,
      ap is_enabled (
            get-find_last a disk other stale
            ∙ ap (find_last other) same
            ∙ find_last-keep id other file)
          ∙ decided id,
    )
  where
    decided :
        (id : Text)
        → is_enabled (if id == other then none else find_last other file)
          ≡ (if id == other then false else is_enabled (find_last other file))
    decided id = elim (Bool-cases (id == other)) [
      | inl same ↦ rw same refl
      | inr differs ↦ rw differs refl
    ]

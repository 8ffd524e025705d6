-- ===== src/Zsyncd/Groups.antt =====
-- The groups that the relay server admits: the file that its commands change, and the list of it
-- that the running server keeps. A time of modification is a number.
pub mod Admitted
pub mod Commands
mod Examples
use zsync.Base.{
  ltb, leb, eqb, if◌then◌else◌, ltb→lt, lt→ltb, le→ltb, leb→le, eqb_iff, Bool-cases, Option-cases,
  length, get_or, take, drop, replicate, is_empty, any, all, keep, All, length-append, length-drop,
  length-take, take-append, drop-append, take-append-drop, take-length, any-append, length-keep-le,
  Bytes, Text, codes, text_beq, text_beq_iff, text_eq, starts_with, utf8_width, text_len, ◌>>=◌,
  ◌>>◌, fail_if, or_fail, Result-cases, Result, Eq, ◌==◌, nat_eq, ok, err, ℕ, zero, suc, ◌+◌, ◌-◌,
  ◌*◌, ◌/◌, ◌%◌, ◌^◌, ◌≤◌, ◌<◌, min, max, ◌≡◌, refl, sym, ap, ap₂, ◌∙◌, subst, ◌≢◌, ◌↔◌, ◌⊎◌, inl,
  inr, Bool, true, false, not, ◌&&◌, ◌||◌, Option, none, some, List, [], ◌∷◌, ◌++◌, map,
  append_assoc, append-nil, arith,
}
use zsync.Base.Map.{
  Map, lookup, insert, remove, retain, eq_refl, lookup-insert, lookup-remove, Distinct,
}
use zsync.Protocol.{hex_encode}
use zsync.Group.{GroupError, parse_group_id}

pub record GroupRec : Type 0 where
  pub id : Text
  pub name : Text
  pub enabled : Bool

pub data ServerError : Type 0 where
  bad_id : GroupError → ServerError
  unknown_group : ServerError
  group_exists : ServerError
  not_saved : ServerError

-- The file `load_groups` reads: what it lists, and nothing where it is missing or does not parse.
abbrev pub GroupsFile : Type 0
GroupsFile = List GroupRec

-- `save_groups`, which replaces the file by a rename.
unfoldable pub save_groups : GroupsFile → Bool → Result ServerError GroupsFile
save_groups file saves = if saves then ok file else err not_saved

-- `parse_group_id`, and its digits.
unfoldable pub canonical : Text → Result ServerError Text
canonical group_id = elim (parse_group_id group_id) [
  | err e ↦ err (bad_id e)
  | ok id ↦ ok (hex_encode id)
]

-- The first record of this id is changed.
unfoldable pub enable_first : Text → Bool → GroupsFile → GroupsFile
enable_first id enabled [] = []
enable_first id enabled (g ∷ gs) =
    if g.id == id then record g { enabled = enabled } ∷ gs else g ∷ enable_first id enabled gs

unfoldable pub set_enabled : GroupsFile → Text → Bool → Bool → Result ServerError GroupsFile
unfolding canonical save_groups enable_first
set_enabled file group_id enabled saves = do
  id ← canonical group_id
  fail_if (not (any (λ g. g.id == id) file)) unknown_group
  save_groups (enable_first id enabled file) saves

unfoldable pub remove_group : GroupsFile → Text → Bool → Result ServerError GroupsFile
unfolding canonical save_groups
remove_group file group_id saves = do
  id ← canonical group_id
  let rest = keep (λ g. not (g.id == id)) file
  fail_if (length rest == length file) unknown_group
  save_groups rest saves

-- The part of `cmd_create` that enters the group into the file, by its id.
unfoldable pub create_group : GroupsFile → Bytes → Text → Bool → Result ServerError GroupsFile
unfolding save_groups
create_group file gid name saves = do
  let id = hex_encode gid
  fail_if (any (λ g. g.id == id) file) group_exists
  save_groups (file ++ record { id = id; name = name; enabled = true } ∷ []) saves

-- What the server finds on disk: the time of modification, if it can be read, whether the file is
-- there, and its groups.
pub record Disk : Type 0 where
  pub mtime : Option ℕ
  pub exists : Bool
  pub file : GroupsFile

pub record Allowlist : Type 0 where
  pub mtime : Option ℕ
  pub groups : Map Text GroupRec

abbrev pub same_time : Option ℕ → Option ℕ → Bool
same_time none none = true
same_time none (some t) = false
same_time (some s) none = false
same_time (some s) (some t) = s == t

-- `collect` into a map: a later group of the same id takes the place of an earlier one.
unfoldable pub collect : Map Text GroupRec → GroupsFile → Map Text GroupRec
collect m [] = m
collect m (g ∷ gs) = collect (insert g.id g m) gs

unfoldable pub refresh : Allowlist → Disk → Allowlist
unfolding collect
refresh a disk =
    if same_time disk.mtime a.mtime && not (is_empty a.groups)
    then a
    else if same_time disk.mtime none && not disk.exists
    then record { mtime = none; groups = [] }
    else record { mtime = disk.mtime; groups = collect [] disk.file }

unfoldable pub get : Allowlist → Disk → Text → Allowlist × Option GroupRec
unfolding refresh
get a disk id = let a' = refresh a disk in (a', lookup id a'.groups)

-- `.map(|g| g.enabled).unwrap_or(false)`.
abbrev pub is_enabled : Option GroupRec → Bool
is_enabled none = false
is_enabled (some g) = g.enabled

-- ===== src/Zsyncd/Groups/Examples.antt =====
-- A file with two groups, one of which is named in upper case on the command line.
use zsync.Base.{Text, codes, text_eq, nat_eq, ok, ◌≡◌, refl, true, false, some, [], ◌∷◌}
use zsync.Protocol.{hex_encode}
use zsync.Group.{to_digit, parse_group_id}
use zsync.Zsyncd.Groups.{GroupsFile, set_enabled, remove_group, Disk, Allowlist}

abbrev aa : Text
aa = codes "aaaaaaaaaaaaaaaaaaaaaaaaaaaaaaaa"

abbrev bb : Text
bb = codes "bbbbbbbbbbbbbbbbbbbbbbbbbbbbbbbb"

abbrev file : GroupsFile
file =
    record { id = aa; name = codes "home"; enabled = true }
    ∷ record { id = bb; name = []; enabled = true }
    ∷ []

abbrev disabled : GroupsFile
disabled =
    record { id = aa; name = codes "home"; enabled = false }
    ∷ record { id = bb; name = []; enabled = true }
    ∷ []

abbrev denied : GroupsFile
denied = record { id = bb; name = []; enabled = true } ∷ []

abbrev known : Allowlist
known = record {
  mtime = some 1;
  groups = (aa, record { id = aa; name = codes "home"; enabled = true }) ∷ [];
}

abbrev disabled_disk : Disk
disabled_disk = record { mtime = some 2; exists = true; file = disabled }

abbrev denied_disk : Disk
denied_disk = record { mtime = some 2; exists = true; file = denied }

abbrev typed : Text
typed = codes "AAAAAAAAAAAAAAAAAAAAAAAAAAAAAAAA"

set_disabled : set_enabled file typed false true ≡ ok disabled
unfolding set_enabled parse_group_id to_digit hex_encode
set_disabled = refl

removed : remove_group file typed true ≡ ok denied
unfolding remove_group parse_group_id to_digit hex_encode
removed = refl

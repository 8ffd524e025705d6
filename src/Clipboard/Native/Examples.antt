-- ===== src/Clipboard/Native/Examples.antt =====
-- A desktop that keeps what was copied last, with its type.
use zsync.Base.{
  if◌then◌else◌, Bytes, Text, codes, text_eq, ◌==◌, nat_eq, ◌≡◌, refl, true, Option, some, List, [],
  ◌∷◌, arith,
}
use zsync.Base.Map.{lookup}
use zsync.Base.Paths.{file_name, extension}
use zsync.Base.Utf8.{decode_from, lead}
use zsync.Protocol.{hash, hex_encode}
use zsync.Protocol.Mime.{mime_from_filename}
use zsync.Protocol.Examples.{digest}
use zsync.Clipboard.{Item, new_item, with_name, sanitize_basename}
use zsync.Clipboard.File.{Files}
use zsync.Clipboard.Uris.{read_file_item, item_from_file_text, file_uri}
use zsync.Clipboard.Uris.RoundTrip.{item_from_file_text-file_uri}
use zsync.Clipboard.Native.{Desktop, wayland_get, wayland_set}
use zsync.Clipboard.Native.Offers.{Pastes, wayland_get-wayland_set}
use zsync.Base.Utf8.{as_bytes}

-- What was copied: the type, if one was given, and the bytes.
abbrev Board : Type 0
Board = Text × Bytes

abbrev copied : List Text → Bytes → Board
copied (flag ∷ mime ∷ []) b = (mime, b)
copied args b = ([], b)

abbrev pasted : List Text → Board → Option Bytes
pasted (arg ∷ []) (mime, b) = if arg == codes "--list-types" then some mime else some b
pasted args (mime, b) = some b

abbrev desktop : Desktop Board
desktop = record {
  run_out = λ os bin args. pasted args os;
  run_in = λ os bin args b. (copied args b, true);
}

pastes : Pastes desktop
unfolding decode_from lead
pastes = record {
  lists = λ os bytes h. (codes "text/uri-list", refl, refl);
  pastes = λ os bytes h. refl;
}

abbrev path : Text
path = codes "/z/clips/drop/a b.txt"

abbrev files : Files
files = (path, codes "hello") ∷ []

abbrev item : Item
item = record {
  mime = codes "text/plain";
  content = codes "hello";
  hash = codes "05";
  path = path;
  name = codes "a b.txt";
}

abbrev got : Item
got = record item { path = [] }

there : lookup path files ≡ some (codes "hello")
unfolding lookup
there = refl

read : read_file_item files digest path ≡ some got
unfolding read_file_item file_name mime_from_filename extension new_item with_name sanitize_basename
    hash hex_encode lookup
read = refl

wayland_get-wayland_set_example :
    wayland_get digest files desktop (wayland_set some desktop files ([], []) item).0 ≡ some got
unfolding wayland_set
wayland_get-wayland_set_example =
    wayland_get-wayland_set digest files desktop some ([], []) item got (codes "hello") pastes refl
      refl refl (ground arith) refl there read

item_from_file_text-file_uri_example :
    item_from_file_text files digest (as_bytes (file_uri some path))
    ≡ read_file_item files digest path
item_from_file_text-file_uri_example =
    item_from_file_text-file_uri files digest some path path (codes "hello") refl (ground arith)
      refl there

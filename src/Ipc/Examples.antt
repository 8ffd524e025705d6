-- ===== src/Ipc/Examples.antt =====
-- A header that is a name, spelled with the number before it.
use zsync.Base.{
  ltb, if◌then◌else◌, any, Bytes, Text, codes, text_eq, ◌==◌, nat_eq, ok, ℕ, ◌+◌, ◌-◌, ◌≡◌, refl,
  false, ◌||◌, Option, none, some, [], ◌∷◌, ◌++◌, arith,
}
use zsync.Ipc.{Header, write_msg, read_line_json, read_exact_body}
use zsync.Ipc.RoundTrip.{read_line_json-write_msg}

-- A name without newlines, the number of whose body is below ten; a name is kept as it is.
abbrev show : Text → ℕ → Option Bytes
show name n = if any (λ b. b == b'\n') name || ltb 9 n then none else some ((48 + n) ∷ name)

abbrev read : Bytes → Option (Text × ℕ)
read [] = none
read (d ∷ name) = some (name, d - 48)

read-show :
    (name : Text) (n : ℕ) (line : Bytes) → show name n ≡ some line → read line ≡ some (name, n)
read-show name n line h = ground (arith, h)

show-line :
    (name : Text) (n : ℕ) (line : Bytes)
    → show name n ≡ some line
    → any (λ b. b == b'\n') line ≡ false
show-line name n line h = ground (arith, h)

unfoldable names : Header Text
names = record {
  set_n = λ name n. name;
  to_string = show;
  from_slice = read;
  from_slice-to_string = read-show;
  one_line = show-line;
}

abbrev message : Bytes
message = codes "5copy" ++ b'\n' ∷ codes "hello"

written : write_msg names [] (codes "copy") (codes "hello") ≡ ok message
unfolding write_msg names
written = refl

shown : names.to_string (codes "copy") 5 ≡ some (codes "5copy")
unfolding names
shown = refl

read_line_json-write_msg_example :
    (read_line_json names (message ++ codes "next")
      ≡ ok ((names.set_n (codes "copy") 5, 5), codes "hellonext"))
    × (read_exact_body (codes "hellonext") 5 ≡ ok (codes "hello", codes "next"))
read_line_json-write_msg_example =
    read_line_json-write_msg names (codes "copy") (codes "5copy") (codes "hello") message
      (codes "next") written shown (omega arith)

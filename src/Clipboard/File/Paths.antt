-- ===== src/Clipboard/File/Paths.antt =====
-- The paths that a call of `set` writes or removes, and the path of the object of a hash.
use zsync.Base.{
  eqb_iff, length, take, is_empty, any, all, Text, codes, text_eq, starts_with, ◌==◌, nat_eq, ℕ,
  ◌-◌, ◌≡◌, refl, sym, ap, ◌∙◌, ◌≢◌, true, false, not, ◌&&◌, Option, none, some, [], ◌∷◌, ◌++◌,
  append_assoc, append-nil, arith,
}
use zsync.Base.Paths.{last, file_name}
use zsync.Group.{is_ascii_hexdigit}
use zsync.Clipboard.File.{
  path_join, clips, objects, stable, drop_dir, meta_path, tmp_of, stripped, is_stale, is_dropped,
}

stripped-append : (a x y : Text) → stripped (a ++ x) (a ++ y) ≡ stripped x y
stripped-append [] x y = refl
stripped-append (c ∷ a) x y = rw ((eqb_iff c c).1 refl) (stripped-append a x y)

last-append : (a b : Text) (d : ℕ) → last b ≡ some d → last (a ++ b) ≡ some d
last-append [] b d h = h
last-append (c ∷ a) b d h = rw (last-append a b d h) refl

last-tmp_of : (path : Text) → last (tmp_of path) ≡ some b'p'
last-tmp_of path = named (file_name path)
  where
    named :
        (n : Option Text)
        → last (elim n [
          | none ↦ path ++ codes "/.tmp"
          | some n ↦ take (length path - length n) path ++ n ++ codes ".tmp"
        ])
          ≡ some b'p'
    named none = last-append path (codes "/.tmp") b'p' refl
    named (some n) = last-append (take (length path - length n) path ++ n) (codes ".tmp") b'p' refl

last-hex :
    (h : Text)
    → all is_ascii_hexdigit h ≡ true
    → is_empty h ≡ false
    → (d : ℕ) × (last h ≡ some d) × (is_ascii_hexdigit d ≡ true)
last-hex [] hex given = absurd (cc)
last-hex (c ∷ []) hex given = (c, refl, ground (arith, hex))
last-hex (c ∷ d ∷ s) hex given =
    let (e, at, digit) = last-hex (d ∷ s) (ground (arith, hex)) refl in (e, rw at refl, digit)

-- The path of the object of a hash, which is written in hexadecimal digits.
module _ (dir h : Text) (hex : all is_ascii_hexdigit h ≡ true) (given : is_empty h ≡ false) where
  abbrev pub object : Text
  object = path_join (objects dir) h

  relative : starts_with h (codes "/") ≡ false
  relative = plain h hex given
    where
      plain :
          (s : Text)
          → all is_ascii_hexdigit s ≡ true
          → is_empty s ≡ false
          → starts_with s (codes "/") ≡ false
      plain [] digits some_there = refl
      plain (c ∷ s) digits some_there = ground (arith, digits)

  abbrev behind : Text
  behind = codes "/objects" ++ codes "/" ++ h

  object-clips : object ≡ clips dir ++ behind
  object-clips =
      (rw relative refl)
      ∙ ap (λ a. a ++ h) (append_assoc (clips dir) (codes "/objects") (codes "/"))
      ∙ append_assoc (clips dir) (codes "/objects" ++ codes "/") h

  not_current : stripped (clips dir ++ codes "/current") object ≡ none
  not_current =
      ap (stripped (clips dir ++ codes "/current")) object-clips
      ∙ stripped-append (clips dir) (codes "/current") behind

  not_dropped : stripped (drop_dir dir ++ codes "/") object ≡ none
  not_dropped =
      ap (stripped (drop_dir dir ++ codes "/")) object-clips
      ∙ ap (λ a. stripped a (clips dir ++ behind))
          (append_assoc (clips dir) (codes "/drop") (codes "/"))
      ∙ stripped-append (clips dir) (codes "/drop" ++ codes "/") behind

  below : (a rest : Text) → stripped a object ≡ none → a ++ rest ≢ object
  below a rest missing same =
      absurd (none_some (sym missing ∙ ap (stripped a) (sym same ∙ refl) ∙ found))
    where
      found : stripped a (a ++ rest) ≡ some rest
      found = ap (λ b. stripped b (a ++ rest)) (sym (append-nil a)) ∙ stripped-append a [] rest

      none_some : none ≡ some rest → ⊥
      none_some e = absurd (cc)

  pub stable-object : (ext : Text) → stable dir ext ≢ object
  stable-object ext = below (clips dir ++ codes "/current") ext not_current

  pub meta_path-object : meta_path dir ≢ object
  meta_path-object same =
      below (clips dir ++ codes "/current") (codes ".json") not_current
        (append_assoc (clips dir) (codes "/current") (codes ".json") ∙ same)

  pub offer-object :
      (name : Text) → starts_with name (codes "/") ≡ false → path_join (drop_dir dir) name ≢ object
  offer-object name inner same =
      below (drop_dir dir ++ codes "/") name not_dropped (sym (rw inner refl) ∙ same)

  pub object-is_stale : (ext : Text) → is_stale dir ext object ≡ false
  object-is_stale ext =
      ap
        (λ o. elim o [
          | none ↦ false
          | some rest ↦
              not (any (λ c. c == b'/') rest) && not (rest == ext) && not (rest == codes ".json")
        ])
        not_current

  pub object-is_dropped : is_dropped dir object ≡ false
  object-is_dropped = ap (λ o. elim o [ none ↦ false | some _ ↦ true ]) not_dropped

  pub tmp_of-object : (path : Text) → tmp_of path ≢ object
  tmp_of-object path same =
      let (d, at, digit) = last-hex h hex given in
      let end : last object ≡ some d =
        (rw relative (last-append (objects dir ++ codes "/") h d at)) in
      let p : some b'p' ≡ some d = sym (last-tmp_of path) ∙ ap last same ∙ end in
      not_digit d p digit
    where
      not_digit : (d : ℕ) → some b'p' ≡ some d → is_ascii_hexdigit d ≡ true → ⊥
      not_digit d p digit = ground (arith, p, digit)

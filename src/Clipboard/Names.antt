-- ===== src/Clipboard/Names.antt =====
-- Names of copied files.
use zsync.Base.{
  Option-cases, length, take, is_empty, keep, All, length-take, Text, codes, text_eq, starts_with,
  ◌==◌, nat_eq, ℕ, zero, suc, ◌≤◌, ◌≡◌, refl, ◌≢◌, inl, inr, false, not, ◌&&◌, none, some, [], ◌∷◌,
  arith,
}
use zsync.Base.Paths.{file_name}
use zsync.Clipboard.{sanitize_basename}

-- No separator of a path and no terminator stands in the name.
abbrev pub IsPlain : Text → Type 0
IsPlain = All (λ c. (c ≢ b'/') × (c ≢ b'\\') × (c ≢ 0))

pub plain-relative : (name : Text) → IsPlain name → starts_with name (codes "/") ≡ false
plain-relative [] plain = refl
plain-relative (c ∷ s) ((slash, _, _), _) = ground (arith, slash)

keep-IsPlain :
    (s : Text) → IsPlain (keep (λ c. not (c == b'/') && not (c == b'\\') && not (c == 0)) s)
keep-IsPlain [] = tt
keep-IsPlain (c ∷ s) = ground (arith, keep-IsPlain s)

take-IsPlain : (n : ℕ) (s : Text) → IsPlain s → IsPlain (take n s)
take-IsPlain zero s p = tt
take-IsPlain (suc n) [] p = tt
take-IsPlain (suc n) (c ∷ s) (pc, ps) = (pc, take-IsPlain n s ps)

abbrev clean : Text → Text
clean base = take 255 (keep (λ c. not (c == b'/') && not (c == b'\\') && not (c == 0)) base)

sanitize-clean :
    (name out : Text)
    → sanitize_basename name ≡ some out
    → (base : Text) × (out ≡ clean base) × (is_empty (clean base) ≡ false)
unfolding sanitize_basename
sanitize-clean name out h = elim (Option-cases (file_name name)) [
  | inl e ↦ absurd (failed e)
  | inr (base, e) ↦ (base, ground (arith, e), ground (arith, e))
]
  where
    failed : file_name name ≡ none → ⊥
    failed e = ground arith

-- An accepted name is not empty, has at most 255 characters, and holds no slash, backslash or NUL.
pub sanitize_basename_safe :
    (name out : Text)
    → sanitize_basename name ≡ some out
    → (is_empty out ≡ false) × (length out ≤ 255) × IsPlain out
sanitize_basename_safe name out h =
    let (base, same, given) = sanitize-clean name out h in
    rw same (
      given,
      omega (
        arith,
        length-take 255 (keep (λ c. not (c == b'/') && not (c == b'\\') && not (c == 0)) base),
      ),
      take-IsPlain 255 _ (keep-IsPlain base),
    )

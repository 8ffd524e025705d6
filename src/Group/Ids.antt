-- ===== src/Group/Ids.antt =====
-- `parse_group_id` and `hex_encode` of src/group.rs.
use zsync.Base.{
  ltb, eqb, if◌then◌else◌, eqb_iff, Bool-cases, Option-cases, length, all, Bytes, Text, text_eq,
  utf8_width, text_len, Result-cases, Result, ◌==◌, nat_eq, ok, err, ℕ, zero, suc, ◌+◌, ◌*◌, ◌/◌,
  ◌%◌, ◌<◌, ◌≡◌, refl, sym, ap, ap₂, ◌∙◌, subst, inl, inr, Bool, true, false, none, some, List, [],
  ◌∷◌, arith,
}
use zsync.Base.Words.{AreBytes}
use zsync.Base.Paths.{to_ascii_lowercase, ascii_lower}
use zsync.Protocol.{hex_digit, hex_encode, length-hex_encode}
use zsync.Group.{
  GroupError, group_id_len, is_whitespace, trim_start, trim_end, trim, to_digit, is_ascii_hexdigit,
  digits, from_str_radix, pairs, parse_group_id,
}

below : ℕ → List ℕ
below zero = []
below (suc n) = n ∷ below n

-- A test that holds of every number below `k`.
all-below : (p : ℕ → Bool) (k n : ℕ) → all p (below k) ≡ true → n < k → p n ≡ true
unfolding below
all-below p zero n h lt = absurd (omega arith)
all-below p (suc k) n h lt = elim (Bool-cases (eqb n k)) [
  | inl same ↦ ground arith
  | inr other ↦ ground (arith, all-below p k n)
]

hex_digit_lem : (n : ℕ) → n < 16 → hex_digit n ≡ (if ltb n 10 then 48 + n else 87 + n)
unfolding hex_digit below
hex_digit_lem n h =
    (eqb_iff (hex_digit n) (if ltb n 10 then 48 + n else 87 + n)).0
      (all-below (λ m. eqb (hex_digit m) (if ltb m 10 then 48 + m else 87 + m)) 16 n refl h)

to_digit-hex_digit : (n : ℕ) → n < 16 → to_digit (hex_digit n) ≡ some n
unfolding to_digit
to_digit-hex_digit n h = ground (arith, hex_digit_lem n h)

hex_digit-to_digit : (c d : ℕ) → to_digit c ≡ some d → (d < 16) × (hex_digit d ≡ ascii_lower c)
unfolding to_digit
hex_digit-to_digit c d h = ground (arith, hex_digit_lem d)

not_plus : (c m : ℕ) → to_digit c ≡ some m → (c == b'+') ≡ false
unfolding to_digit
not_plus c m h = ground arith

-- Two digits are one byte.
from_str_radix_pair :
    (c d m n : ℕ)
    → to_digit c ≡ some m
    → to_digit d ≡ some n
    → m < 16
    → n < 16
    → from_str_radix (c ∷ d ∷ []) ≡ ok (m * 16 + n)
unfolding from_str_radix digits
from_str_radix_pair c d m n hc hd hm hn = rw (not_plus c m hc, hc, hd) (ground arith)

hex_digit-is_ascii_hexdigit : (n : ℕ) → n < 16 → is_ascii_hexdigit (hex_digit n) ≡ true
hex_digit-is_ascii_hexdigit n h = ground (arith, hex_digit_lem n h)

to_digit_total : (c : ℕ) → is_ascii_hexdigit c ≡ true → (d : ℕ) × (to_digit c ≡ some d)
unfolding to_digit
to_digit_total c h = elim (Option-cases (to_digit c)) [ inl e ↦ absurd (bad e) | inr found ↦ found ]
  where
    bad : to_digit c ≡ none → ⊥
    bad e = ground arith

hex_plain : (c : ℕ) → is_ascii_hexdigit c ≡ true → (is_whitespace c ≡ false) × (utf8_width c ≡ 1)
hex_plain c h = ground arith

-- Digits take one byte each, and no space stands among them.
pub text_len-hex : (s : Text) → all is_ascii_hexdigit s ≡ true → text_len s ≡ length s
text_len-hex [] h = refl
text_len-hex (c ∷ s) h = ground (arith, hex_plain c, text_len-hex s)

trim_end-hex : (s : Text) → all is_ascii_hexdigit s ≡ true → trim_end s ≡ s
trim_end-hex [] h = refl
trim_end-hex (c ∷ s) h = ground (arith, hex_plain c, trim_end-hex s)

trim-hex : (s : Text) → all is_ascii_hexdigit s ≡ true → trim s ≡ s
unfolding trim
trim-hex [] h = refl
trim-hex (c ∷ s) h = ap trim_end starts ∙ trim_end-hex (c ∷ s) h
  where
    starts : trim_start (c ∷ s) ≡ c ∷ s
    starts = ground (arith, hex_plain c)

pub hex_encode-hex : (bs : Bytes) → AreBytes bs → all is_ascii_hexdigit (hex_encode bs) ≡ true
unfolding hex_encode
hex_encode-hex [] h = refl
hex_encode-hex (b ∷ bs) (small, h) =
    rw
      (
        hex_digit-is_ascii_hexdigit (b / 16) (omega arith),
        hex_digit-is_ascii_hexdigit (b % 16) (omega arith),
      )
      (hex_encode-hex bs h)

pub pairs-hex_encode : (bs : Bytes) → AreBytes bs → pairs (length bs) (hex_encode bs) ≡ ok bs
unfolding pairs hex_encode
pairs-hex_encode [] h = refl
pairs-hex_encode (b ∷ bs) (small, h) =
    rw
      (
        from_str_radix_pair (hex_digit (b / 16)) (hex_digit (b % 16)) (b / 16) (b % 16)
            (to_digit-hex_digit (b / 16) (omega arith)) (to_digit-hex_digit (b % 16) (omega arith))
            (omega arith) (omega arith),
        pairs-hex_encode bs h,
      )
      (ap (λ x. ok (x ∷ bs)) whole)
  where
    whole : b / 16 * 16 + b % 16 ≡ b
    whole = omega arith

-- A group id of sixteen bytes is read back from its digits.
pub parse_group_id-hex_encode :
    (id : Bytes) → AreBytes id → length id ≡ group_id_len → parse_group_id (hex_encode id) ≡ ok id
unfolding parse_group_id
parse_group_id-hex_encode id bytes sixteen =
    rw
      (
        trim-hex (hex_encode id) (hex_encode-hex id bytes),
        hex_encode-hex id bytes,
        text_len-hex (hex_encode id) (hex_encode-hex id bytes),
        length-hex_encode id,
        sixteen,
      )
      (subst (λ n. pairs n (hex_encode id) ≡ ok id) sixteen (pairs-hex_encode id bytes))

-- The bytes that `n` pairs of the digits `s` give.
abbrev Spelled : ℕ → Text → Bytes → Type 0
Spelled n s id = (length id ≡ n) × AreBytes id × (hex_encode id ≡ to_ascii_lowercase s)

abbrev got : Result GroupError Bytes → Bytes
got (ok bs) = bs
got (err x) = []

Spelled-cons :
    (n c d hi lo : ℕ) (s : Text) (bs : Bytes)
    → to_digit c ≡ some hi
    → to_digit d ≡ some lo
    → Spelled n s bs
    → Spelled (suc n) (c ∷ d ∷ s) ((hi * 16 + lo) ∷ bs)
unfolding hex_encode
Spelled-cons n c d hi lo s bs ec ed (len, bytes, same) =
    let (hi_small, hi_same) = hex_digit-to_digit c hi ec in
    let (lo_small, lo_same) = hex_digit-to_digit d lo ed in
    let high : (hi * 16 + lo) / 16 ≡ hi = omega arith in
    let low : (hi * 16 + lo) % 16 ≡ lo = omega arith in
    (
      ap suc len,
      (omega arith, bytes),
      rw (high, low, same) (ap₂ (λ x y. x ∷ (y ∷ to_ascii_lowercase s)) hi_same lo_same),
    )

pairs-Spelled :
    (n : ℕ) (s : Text) (id : Bytes)
    → all is_ascii_hexdigit s ≡ true
    → length s ≡ n * 2
    → pairs n s ≡ ok id
    → Spelled n s id
unfolding pairs hex_encode
pairs-Spelled zero [] id hex len h = subst (Spelled 0 []) (ap got h) (refl, tt, refl)
pairs-Spelled zero (c ∷ s) id hex len h = absurd (omega arith)
pairs-Spelled (suc n) [] id hex len h = absurd (omega arith)
pairs-Spelled (suc n) (c ∷ []) id hex len h = absurd (omega arith)
pairs-Spelled (suc n) (c ∷ d ∷ s) id hex len h =
    let (hi, ec) = to_digit_total c (ground arith) in
    let (lo, ed) = to_digit_total d (ground arith) in
    let pair =
      from_str_radix_pair c d hi lo ec ed (hex_digit-to_digit c hi ec).0
        (hex_digit-to_digit d lo ed).0 in
    elim (Result-cases (pairs n s)) [
      | inl (x, bad) ↦ absurd (failed hi lo x pair bad)
      | inr (bs, good) ↦ subst (Spelled (suc n) (c ∷ d ∷ s)) (ap got (rw (pair, good) at h)) (
          Spelled-cons n c d hi lo s bs ec ed
            (pairs-Spelled n s bs (ground arith) (omega arith) good))
    ]
  where
    failed :
        (hi lo : ℕ) (x : GroupError)
        → from_str_radix (c ∷ d ∷ []) ≡ ok (hi * 16 + lo)
        → pairs n s ≡ err x
        → ⊥
    failed hi lo x pair bad = ground arith

-- An accepted group id has sixteen bytes, and printing it gives what was written without the
-- spaces around it and in lower case.
pub hex_encode-parse_group_id :
    (s : Text) (id : Bytes)
    → parse_group_id s ≡ ok id
    → (length id ≡ group_id_len) × AreBytes id × (hex_encode id ≡ to_ascii_lowercase (trim s))
unfolding parse_group_id
hex_encode-parse_group_id s id h = elim (Bool-cases (all is_ascii_hexdigit (trim s))) [
  | inr bad ↦ absurd (not_hex bad)
  | inl hex ↦ elim (Bool-cases (text_len (trim s) == group_id_len * 2)) [
    | inr bad ↦ absurd (not_long bad)
    | inl long ↦
        pairs-Spelled 16 (trim s) id hex
          (sym (text_len-hex (trim s) hex) ∙ (eqb_iff (text_len (trim s)) 32).0 long)
          (rw (long, hex) at h)
  ]
]
  where
    not_hex : all is_ascii_hexdigit (trim s) ≡ false → ⊥
    not_hex bad = ground arith

    not_long : (text_len (trim s) == group_id_len * 2) ≡ false → ⊥
    not_long bad = ground arith

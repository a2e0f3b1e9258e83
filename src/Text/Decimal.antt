-- ===== src/Text/Decimal.antt =====
-- strconv.ParseInt(s, 10, 64), strconv.Atoi (the same on 64 bits) and strconv.FormatInt(n, 10).
use kyvernetria.Prelude.Int.{ℤ, pos, negsuc, sub_ℕ}
use kyvernetria.Text.Fields.{is_space, IsWord}
use kyvernetria.Prelude.{
  ℕ, zero, suc, ◌+◌, ◌-◌, ◌*◌, ◌/◌, ◌%◌, ◌<◌, ◌≡◌, refl, sym, ap, Bool, true, false, ◌&&◌, List, [],
  ◌∷◌, ◌++◌, Option, none, some, arith, ltb, leb, ◌==◌, if◌then◌else◌, Bool-cases, inl, inr, ◌∙◌,
}

unfoldable pub is_digit : ℕ → Bool
is_digit c = leb b'0' c && leb c b'9'

-- The value of a run of digits, behind a value already read.
unfoldable pub digits_value : ℕ → List ℕ → Option ℕ
unfolding is_digit
digits_value acc [] = some acc
digits_value acc (c ∷ s) = elim (is_digit c) [
  | true ↦ digits_value (acc * 10 + (c - b'0')) s
  | false ↦ none
]

-- `""` is no number.
unfoldable pub parse_uint : List ℕ → Option ℕ
unfolding digits_value
parse_uint [] = none
parse_uint (c ∷ s) = digits_value 0 (c ∷ s)

abbrev pub ranged_pos : Option ℕ → Option ℤ
ranged_pos none = none
ranged_pos (some n) = if ltb n 9223372036854775808 then some (pos n) else none

abbrev pub ranged_neg : Option ℕ → Option ℤ
ranged_neg none = none
ranged_neg (some n) = if leb n 9223372036854775808 then some (sub_ℕ 0 n) else none

unfoldable pub parse_int : List ℕ → Option ℤ
unfolding parse_uint
parse_int [] = none
parse_int (c ∷ s) =
    if c == b'-'
    then ranged_neg (parse_uint s)
    else (if c == b'+' then ranged_pos (parse_uint s) else ranged_pos (parse_uint (c ∷ s)))

-- The digits of n, with more fuel than n has digits.
pub digits : ℕ → ℕ → List ℕ
digits zero n = []
digits (suc f) n =
    let rest = digits f (n / 10) in
    if ltb n 10 then (b'0' + n) ∷ [] else rest ++ (b'0' + n % 10) ∷ []

unfoldable pub format_nat : ℕ → List ℕ
unfolding digits
format_nat n = digits (suc n) n

unfoldable pub format_int : ℤ → List ℕ
unfolding format_nat
format_int (pos n) = format_nat n
format_int (negsuc n) = b'-' ∷ format_nat (suc n)

digits_value-snoc :
    (acc : ℕ) (s : List ℕ) (d m : ℕ)
    → d < 10
    → digits_value acc s ≡ some m
    → digits_value acc (s ++ (b'0' + d) ∷ []) ≡ some (m * 10 + d)
unfolding digits_value
digits_value-snoc acc [] d m h e = ground arith
digits_value-snoc acc (c ∷ s) d m h e =
    ground (arith, digits_value-snoc (acc * 10 + (c - b'0')) s d m h)

digits_value-one : (n : ℕ) → n < 10 → digits_value 0 ((b'0' + n) ∷ []) ≡ some n
unfolding digits_value
digits_value-one n h = ground arith

digits-value : (f n : ℕ) → n < f → digits_value 0 (digits f n) ≡ some n
unfolding digits
digits-value zero n h = elim h [ ]
digits-value (suc f) n h = elim (Bool-cases (ltb n 10)) [
  | inl small ↦ rw small (digits_value-one n (ground arith))
  | inr large ↦ rw large (
      digits_value-snoc 0 (digits f (n / 10)) (n % 10) (n / 10) (omega arith)
        (digits-value f (n / 10) (ground arith))
      ∙ ap some (omega arith))
]

digit-is_digit : (d : ℕ) → d < 10 → is_digit (b'0' + d) ≡ true
unfolding is_digit
digit-is_digit d h = ground arith

pub digit-not_space : (c : ℕ) → is_digit c ≡ true → is_space c ≡ false
unfolding is_digit is_space
digit-not_space c h = ground arith

All-snoc : (s : List ℕ) (c : ℕ) → IsWord s → is_space c ≡ false → IsWord (s ++ c ∷ [])
All-snoc [] c h e = (e, tt)
All-snoc (x ∷ s) c h e = (h.0, All-snoc s c h.1 e)

-- A printed number begins with a digit, and holds no space.
abbrev pub IsNumeral : List ℕ → Type 0
IsNumeral s = (c : ℕ) × (w : List ℕ) × (s ≡ c ∷ w) × (is_digit c ≡ true) × IsWord (c ∷ w)

IsNumeral-snoc : (s : List ℕ) (c : ℕ) → IsNumeral s → is_space c ≡ false → IsNumeral (s ++ c ∷ [])
IsNumeral-snoc s c (d, w, e, dig, word) h =
    (d, w ++ c ∷ [], ap (λ t. t ++ c ∷ []) e, dig, (word.0, All-snoc w c word.1 h))

digits-IsNumeral : (f n : ℕ) → n < f → IsNumeral (digits f n)
unfolding digits
digits-IsNumeral zero n h = elim h [ ]
digits-IsNumeral (suc f) n h = elim (Bool-cases (ltb n 10)) [
  | inl small ↦
      let dig = digit-is_digit n (ground arith) in
      rw small (b'0' + n, [], refl, dig, (digit-not_space _ dig, tt))
  | inr large ↦ rw large (
      IsNumeral-snoc (digits f (n / 10)) (b'0' + n % 10)
        (digits-IsNumeral f (n / 10) (ground arith))
        (digit-not_space _ (digit-is_digit (n % 10) (omega arith))))
]

pub format_nat-IsNumeral : (n : ℕ) → IsNumeral (format_nat n)
unfolding format_nat
format_nat-IsNumeral n = digits-IsNumeral (suc n) n (omega arith)

-- What a text with a leading digit parses to.
parse_int-digit :
    (c : ℕ) (w : List ℕ) (n : ℕ)
    → is_digit c ≡ true
    → digits_value 0 (c ∷ w) ≡ some n
    → n < 9223372036854775808
    → parse_int (c ∷ w) ≡ some (pos n)
unfolding parse_int is_digit
parse_int-digit c w n d e h = ground arith

-- A printed timestamp reads back, unless it leaves the range of an int64.
pub parse_int-format_nat :
    (n : ℕ) → n < 9223372036854775808 → parse_int (format_nat n) ≡ some (pos n)
unfolding format_nat
parse_int-format_nat n h =
    let (c, w, e, d, _) = digits-IsNumeral (suc n) n (omega arith) in
    ap parse_int e
    ∙ parse_int-digit c w n d (ap (digits_value 0) (sym e) ∙ digits-value (suc n) n (omega arith)) h

parse_int_test : parse_int (format_int (negsuc 1233)) ≡ some (negsuc 1233)
unfolding parse_int format_int
parse_int_test = refl

format_nat_test : format_nat 1764157368 ≡ 49 ∷ 55 ∷ 54 ∷ 52 ∷ 49 ∷ 53 ∷ 55 ∷ 51 ∷ 54 ∷ 56 ∷ []
unfolding format_nat
format_nat_test = refl

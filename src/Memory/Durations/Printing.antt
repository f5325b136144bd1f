-- ===== src/Memory/Durations/Printing.antt =====
-- crates/jaiba-memory/src/duration.rs: durations as they are written.
use jaiva.Prelude.{
  ℕ, zero, suc, ◌+◌, ◌-◌, ◌*◌, ◌/◌, ◌%◌, ◌≤◌, ◌<◌, ◌≡◌, refl, ap, ◌∙◌, inl, inr, false, Option,
  none, some, [], ◌∷◌, ◌++◌, arith, ltb, ◌==◌, is_empty, All, Bool-cases, u64_max, saturating_mul,
}
use native.Mathlib.Nat.{mul-pos}
use jaiva.Texts.{Text, trim, trim_start, trim_end, is_whitespace, is_ascii_digit, digits, to_string}
use jaiva.Memory.Durations.{
  digits_value, without_sign, nonempty_value, parse_u64, split_last, seconds, unit_seconds, in_unit,
  of_amount, parse_trimmed, parse_duration,
}

abbrev then_digit : Option ℕ → ℕ → Option ℕ
then_digit none d = none
then_digit (some n) d = some (n * 10 + d)

digits_value-append :
    (read : ℕ) (s : Text) (d : ℕ)
    → d < 10
    → digits_value read (s ++ (b'0' + d) ∷ []) ≡ then_digit (digits_value read s) d
unfolding is_ascii_digit
digits_value-append read [] d small = ground (arith, small)
digits_value-append read (c ∷ s) d small =
    ground (arith, digits_value-append (read * 10 + (c - b'0')) s d small)

digits_value-digits : (fuel n : ℕ) → n < fuel → digits_value 0 (digits fuel n) ≡ some n
unfolding digits is_ascii_digit
digits_value-digits zero n enough = absurd (omega (arith, enough))
digits_value-digits (suc fuel) n enough = elim (Bool-cases (ltb n 10)) [
  | inl small ↦ rw small (ground (arith, small))
  | inr large ↦
      let two_digits : 9 < n = ground (arith, large) in
      rw large (
        rw
          (
            digits_value-append 0 (digits fuel (n / 10)) (n % 10) (omega arith),
            digits_value-digits fuel (n / 10) (omega (arith, enough, two_digits)),
          )
          (ap some (omega arith)))
]

without_sign-digits : (s : Text) (n : ℕ) → digits_value 0 s ≡ some n → without_sign s ≡ s
unfolding is_ascii_digit
without_sign-digits [] n h = refl
without_sign-digits (c ∷ s) n h = elim (Bool-cases (c == b'+')) [
  | inl sign ↦ absurd (ground (arith, h, sign))
  | inr plain ↦ rw plain refl
]

-- The digits of a number: there is one, and none of them is white.
abbrev IsPrinted : Text → Type 0
IsPrinted s = (is_empty s ≡ false) × All (λ c. is_whitespace c ≡ false) s

All-snoc :
    (s : Text) (c : ℕ)
    → All (λ d. is_whitespace d ≡ false) s
    → is_whitespace c ≡ false
    → All (λ d. is_whitespace d ≡ false) (s ++ c ∷ [])
All-snoc [] c h own = (own, tt)
All-snoc (d ∷ s) c h own = (h.0, All-snoc s c h.1 own)

is_empty-snoc : (s : Text) (c : ℕ) → is_empty (s ++ c ∷ []) ≡ false
is_empty-snoc [] c = refl
is_empty-snoc (d ∷ s) c = refl

digit-black : (d : ℕ) → d < 10 → is_whitespace (48 + d) ≡ false
unfolding is_whitespace
digit-black d small = ground (arith, small)

digits-black : (fuel n : ℕ) → All (λ c. is_whitespace c ≡ false) (digits fuel n)
unfolding digits
digits-black zero n = tt
digits-black (suc fuel) n = elim (Bool-cases (ltb n 10)) [
  | inl small ↦ rw small (digit-black n (ground (arith, small)), tt)
  | inr large ↦ rw large (
      All-snoc (digits fuel (n / 10)) (48 + n % 10) (digits-black fuel (n / 10))
        (digit-black (n % 10) (omega arith)))
]

digits_nonempty : (fuel n : ℕ) → is_empty (digits (suc fuel) n) ≡ false
unfolding digits
digits_nonempty fuel n = elim (Bool-cases (ltb n 10)) [
  | inl small ↦ rw small refl
  | inr large ↦ rw large (is_empty-snoc (digits fuel (n / 10)) (48 + n % 10))
]

trim_start-black : (s : Text) → All (λ c. is_whitespace c ≡ false) s → trim_start s ≡ s
unfolding trim_start
trim_start-black [] h = refl
trim_start-black (c ∷ s) h = rw h.0 refl

trim_end-black : (s : Text) → All (λ c. is_whitespace c ≡ false) s → trim_end s ≡ s
unfolding trim_end
trim_end-black [] h = refl
trim_end-black (c ∷ s) h = rw (trim_end-black s h.1, h.0) (ground arith)

trim-black : (s : Text) → All (λ c. is_whitespace c ≡ false) s → trim s ≡ s
unfolding trim
trim-black s h = rw (trim_start-black s h) (trim_end-black s h)

split_last-snoc : (c : ℕ) (s : Text) (unit : ℕ) → split_last c (s ++ unit ∷ []) ≡ (c ∷ s, unit)
split_last-snoc c [] unit = refl
split_last-snoc c (d ∷ s) unit = rw (split_last-snoc d s unit) refl

parse_u64-to_string : (n : ℕ) → n ≤ u64_max → parse_u64 (to_string n) ≡ some n
unfolding parse_u64 to_string
parse_u64-to_string n fits =
    let s = digits (suc n) n in
    let value : digits_value 0 s ≡ some n = digits_value-digits (suc n) n (omega arith) in
    rw (without_sign-digits s n value) (nonempty s value (digits_nonempty n n))
  where
    nonempty :
        (s : Text) → digits_value 0 s ≡ some n → is_empty s ≡ false → nonempty_value s ≡ some n
    nonempty [] value some_digit = absurd (cc)
    nonempty (c ∷ s) value some_digit = rw value (ground (arith, fits))

parse_trimmed-snoc :
    (s : Text) (unit : ℕ)
    → is_empty s ≡ false
    → unit < 128
    → parse_trimmed (s ++ unit ∷ []) ≡ of_amount unit (parse_u64 s)
unfolding parse_trimmed
parse_trimmed-snoc [] unit some_digit ascii = absurd (cc)
parse_trimmed-snoc (c ∷ s) unit some_digit ascii =
    rw (split_last-snoc c s unit) (ground (arith, ascii))

to_string-IsPrinted : (n : ℕ) → IsPrinted (to_string n)
unfolding to_string
to_string-IsPrinted n = (digits_nonempty n n, digits-black (suc n) n)

unit_facts :
    (unit factor : ℕ)
    → unit_seconds unit ≡ some factor
    → (unit < 128) × (is_whitespace unit ≡ false) × (0 < factor)
unfolding is_whitespace
unit_facts unit factor known = (ground (arith, known), ground (arith, known), ground (arith, known))

in_unit-seconds :
    (n factor : ℕ)
    → 0 < n
    → 0 < factor
    → in_unit n (some factor) ≡ seconds (saturating_mul u64_max n factor)
in_unit-seconds n factor positive some_seconds =
    let more : 0 < n * factor = mul-pos positive some_seconds in ground (arith, more)

-- A positive number of a word and a unit of time, as they are written, parse as the seconds of the
-- unit that often, or the most that a word holds.
pub parse_duration-to_string :
    (n unit factor : ℕ)
    → 0 < n
    → n ≤ u64_max
    → unit_seconds unit ≡ some factor
    → parse_duration (to_string n ++ unit ∷ []) ≡ seconds (saturating_mul u64_max n factor)
unfolding parse_duration
parse_duration-to_string n unit factor positive fits known =
    let (ascii, black, some_seconds) = unit_facts unit factor known in
    let (some_digit, digits_black) = to_string-IsPrinted n in
    let value = to_string n ++ unit ∷ [] in
    ap parse_trimmed (trim-black value (All-snoc (to_string n) unit digits_black black))
    ∙ parse_trimmed-snoc (to_string n) unit some_digit ascii
    ∙ ap (of_amount unit) (parse_u64-to_string n fits)
    ∙ ap (in_unit n) known
    ∙ in_unit-seconds n factor positive some_seconds

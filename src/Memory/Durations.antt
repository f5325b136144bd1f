-- ===== src/Memory/Durations.antt =====
-- crates/jaiba-memory/src/duration.rs: the durations of a policy, in seconds. A text is a list of
-- code points, and `split_at` before its last byte panics inside a longer code point.
pub mod Printing
mod Examples
use jaiva.Prelude.{
  ℕ, zero, suc, ◌+◌, ◌-◌, ◌*◌, String, Bool, true, false, ◌&&◌, ◌||◌, not, Option, none, some, List,
  [], ◌∷◌, ◌++◌, ltb, leb, ◌==◌, if◌then◌else◌, is_empty, u64_max, saturating_mul,
}
use jaiva.Texts.{Text, codes, trim, is_ascii_digit}

-- The value of decimal digits, behind those that are read.
abbrev pub digits_value : ℕ → Text → Option ℕ
digits_value read [] = some read
digits_value read (c ∷ s) =
    let rest = digits_value (read * 10 + (c - b'0')) s in if is_ascii_digit c then rest else none

-- A word holds the value.
abbrev pub in_word : Option ℕ → Option ℕ
in_word none = none
in_word (some n) = if leb n u64_max then some n else none

abbrev pub without_sign : Text → Text
without_sign [] = []
without_sign (c ∷ s) = if c == b'+' then s else c ∷ s

abbrev pub nonempty_value : Text → Option ℕ
nonempty_value [] = none
nonempty_value (c ∷ s) = in_word (digits_value 0 (c ∷ s))

-- `parse::<u64>()`
unfoldable pub parse_u64 : Text → Option ℕ
unfolding is_ascii_digit
parse_u64 s = nonempty_value (without_sign s)

-- All but the last code point, and that.
abbrev pub split_last : ℕ → Text → Text × ℕ
split_last c [] = ([], c)
split_last c (d ∷ s) = let (start, last) = split_last d s in (c ∷ start, last)

pub data Parsed : Type 0 where
  seconds : ℕ → Parsed
  empty_duration : Parsed
  invalid_duration : Parsed
  unknown_unit : Parsed
  zero_duration : Parsed
  panics : Parsed

abbrev pub unit_seconds : ℕ → Option ℕ
unit_seconds unit =
    if unit == b's'
    then some 1
    else if unit == b'm'
    then some 60
    else if unit == b'h'
    then some 3600
    else if unit == b'd'
    then some 86400
    else none

abbrev pub in_unit : ℕ → Option ℕ → Parsed
in_unit amount none = unknown_unit
in_unit amount (some factor) =
    let secs = saturating_mul u64_max amount factor in
    if secs == 0 then zero_duration else seconds secs

abbrev pub of_amount : ℕ → Option ℕ → Parsed
of_amount unit none = invalid_duration
of_amount unit (some amount) = in_unit amount (unit_seconds unit)

unfoldable pub parse_trimmed : Text → Parsed
unfolding parse_u64
parse_trimmed [] = empty_duration
parse_trimmed (c ∷ s) =
    let (number, unit) = split_last c s in
    if ltb unit 128 then of_amount unit (parse_u64 number) else panics

unfoldable pub parse_duration : Text → Parsed
unfolding parse_trimmed trim
parse_duration value = parse_trimmed (trim value)

-- ===== src/Memory/Durations/Examples.antt =====
-- crates/jaiba-memory/src/duration.rs: some durations.
use jaiva.Prelude.{◌≡◌, refl, [], ◌∷◌, ◌++◌, arith}
use jaiva.Texts.{codes, to_string}
use jaiva.Memory.Durations.{parse_duration, seconds, panics}
use jaiva.Memory.Durations.Printing.{parse_duration-to_string}

parse_duration-to_string_example : parse_duration (to_string 90 ++ b'm' ∷ []) ≡ seconds 5400
parse_duration-to_string_example =
    parse_duration-to_string 90 b'm' 60 (omega arith) (omega arith) refl

two_hours : parse_duration (codes " +2h ") ≡ seconds 7200
unfolding parse_duration
two_hours = refl

-- The last byte of the text lies within a code point.
accent_panics : parse_duration (codes "5µ") ≡ panics
unfolding parse_duration
accent_panics = refl

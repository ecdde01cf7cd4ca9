-- ===== src/Json/Syntax.antt =====
-- A recogniser of JSON texts: the grammar of RFC 8259 as an automaton with a stack, which reads
-- a text byte by byte. It knows objects, arrays, strings and numbers; it takes no escapes in
-- strings, no exponents, no literal names and no space in an empty array, which the program does not write, so that what it
-- accepts is a part of JSON.
pub mod Cover
use mathlib.Core.Option.{some-injective}
use atophttpd.Prelude.{
  ℕ, Bool, true, false, ◌&&◌, ◌||◌, List, [], ◌∷◌, ◌++◌, Option, none, some, ◌≡◌, refl, ap, inl,
  inr, Option-cases, codes, Bytes, ltb, leb, ◌==◌, if◌then◌else◌,
}

-- What a byte is to the grammar.
pub data Class : Type 0 where
  quote left_brace right_brace left_bracket right_bracket comma colon minus zero_digit digit point
        space newline other bad :
      Class

unfoldable pub class_of : ℕ → Class
class_of c =
    if c == b'"'
    then quote
    else if c == b'{'
    then left_brace
    else if c == b'}'
    then right_brace
    else if c == b'['
    then left_bracket
    else if c == b']'
    then right_bracket
    else if c == b','
    then comma
    else if c == b':'
    then colon
    else if c == b'-'
    then minus
    else if c == b'0'
    then zero_digit
    else if leb b'1' c && leb c b'9'
    then digit
    else if c == b'.'
    then point
    else if c == 32
    then space
    else if c == 10
    then newline
    else if ltb c 32 || c == b'\\'
    then bad
    else other

-- What is open round the place that is read.
pub data Frame : Type 0 where
  object array : Frame

-- What is expected: a value; the first value or the end of an array; the first key or the end of
-- an object; a key; a colon; the rest of a key, of a string, of a number; or what follows a value.
pub data Mode : Type 0 where
  value first_value first_key key at_colon in_key in_string after_minus after_zero digits
        after_point fraction after :
      Mode

abbrev pub State : Type 0
State = Mode × List Frame

abbrev pub start_value : List Frame → Class → Option State
start_value fs quote = some (in_string, fs)
start_value fs left_brace = some (first_key, object ∷ fs)
start_value fs left_bracket = some (first_value, array ∷ fs)
start_value fs minus = some (after_minus, fs)
start_value fs zero_digit = some (after_zero, fs)
start_value fs digit = some (digits, fs)
start_value fs space = some (value, fs)
start_value fs _ = none

abbrev pub end_value : List Frame → Class → Option State
end_value (object ∷ fs) comma = some (key, object ∷ fs)
end_value (array ∷ fs) comma = some (value, array ∷ fs)
end_value (object ∷ fs) right_brace = some (after, fs)
end_value (array ∷ fs) right_bracket = some (after, fs)
end_value fs space = some (after, fs)
end_value fs newline = some (after, fs)
end_value fs _ = none

abbrev pub in_quotes : Mode → Mode → List Frame → Class → Option State
in_quotes inside behind fs quote = some (behind, fs)
in_quotes inside behind fs newline = none
in_quotes inside behind fs bad = none
in_quotes inside behind fs _ = some (inside, fs)

abbrev pub start_key : List Frame → Class → Option State
start_key fs quote = some (in_key, fs)
start_key fs space = some (key, fs)
start_key fs _ = none

abbrev pub start_first_key : List Frame → Class → Option State
start_first_key (object ∷ fs) right_brace = some (after, fs)
start_first_key fs quote = some (in_key, fs)
start_first_key fs space = some (first_key, fs)
start_first_key fs _ = none

abbrev pub start_first_value : List Frame → Class → Option State
start_first_value (array ∷ fs) right_bracket = some (after, fs)
start_first_value fs k = start_value fs k

abbrev pub at_colon_step : List Frame → Class → Option State
at_colon_step fs colon = some (value, fs)
at_colon_step fs space = some (at_colon, fs)
at_colon_step fs _ = none

abbrev pub first_digit : List Frame → Class → Option State
first_digit fs zero_digit = some (after_zero, fs)
first_digit fs digit = some (digits, fs)
first_digit fs _ = none

abbrev pub more_digits : List Frame → Class → Option State
more_digits fs zero_digit = some (digits, fs)
more_digits fs digit = some (digits, fs)
more_digits fs point = some (after_point, fs)
more_digits fs k = end_value fs k

abbrev pub zero_step : List Frame → Class → Option State
zero_step fs point = some (after_point, fs)
zero_step fs k = end_value fs k

abbrev pub fraction_digit : List Frame → Class → Option State
fraction_digit fs zero_digit = some (fraction, fs)
fraction_digit fs digit = some (fraction, fs)
fraction_digit fs _ = none

abbrev pub fraction_step : List Frame → Class → Option State
fraction_step fs zero_digit = some (fraction, fs)
fraction_step fs digit = some (fraction, fs)
fraction_step fs k = end_value fs k

unfoldable pub step : Mode → List Frame → Class → Option State
step value = start_value
step first_value = start_first_value
step first_key = start_first_key
step key = start_key
step at_colon = at_colon_step
step in_key = in_quotes in_key at_colon
step in_string = in_quotes in_string after
step after_minus = first_digit
step after_zero = zero_step
step digits = more_digits
step after_point = fraction_digit
step fraction = fraction_step
step after = end_value

-- The state behind a text; `none` is no JSON, however it goes on.
unfoldable pub run : State → Bytes → Option State
unfolding step class_of
run s [] = some s
run s (c ∷ cs) = elim (step s.0 s.1 (class_of c)) [ none ↦ none | some s' ↦ run s' cs ]

pub run-append : (s s' : State) (t u : Bytes) → run s t ≡ some s' → run s (t ++ u) ≡ run s' u
unfolding run
run-append s s' [] u h = ap (λ x. run x u) (some-injective _ _ h)
run-append s s' (c ∷ cs) u h = elim (Option-cases (step s.0 s.1 (class_of c))) [
  | inl n ↦ absurd (cc (rw (n, run) at h))
  | inr (x, e) ↦ rw (e, run) (run-append x s' cs u (rw (e, run) at h))
]

-- A whole text: a value and nothing but white space behind it.
abbrev pub IsJson : Bytes → Type 0
IsJson t = run (value, []) t ≡ some (after, [])

sample : IsJson (codes "{\"a\": [{\"b\": -1.50}, {\"c\": \"x\"}], \"d\": 0}\n")
unfolding run
sample = refl

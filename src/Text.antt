-- ===== src/Text.antt =====
-- What the program uses of Go's strconv and strings: `strconv.Itoa`, `strconv.Atoi` and
-- `strings.EqualFold`. A string is its sequence of code points.
use Prim.Native.Char.{code}
use Prim.Native.String.{◌++◌}
use headless_csms.Prelude.{
  ℕ, zero, suc, ◌+◌, ◌-◌, ◌*◌, ◌/◌, ◌%◌, String, ◌≡◌, refl, Bool, true, false, ◌&&◌, Option, none,
  some, ltb, leb, eqb, if◌then◌else◌, ℤ, pos, negsuc, max_int,
}

-- One decimal digit.
abbrev pub digit : ℕ → String
digit zero = "0"
digit (suc zero) = "1"
digit (suc (suc zero)) = "2"
digit (suc (suc (suc zero))) = "3"
digit (suc (suc (suc (suc zero)))) = "4"
digit (suc (suc (suc (suc (suc zero))))) = "5"
digit (suc (suc (suc (suc (suc (suc zero)))))) = "6"
digit (suc (suc (suc (suc (suc (suc (suc zero))))))) = "7"
digit (suc (suc (suc (suc (suc (suc (suc (suc zero)))))))) = "8"
digit (suc (suc (suc (suc (suc (suc (suc (suc (suc n))))))))) = "9"

-- The decimal digits of a number; `suc n` rounds are more than it has.
unfoldable pub digits : ℕ → ℕ → String
digits zero n = ""
digits (suc f) n = elim (ltb n 10) [ true ↦ digit n | false ↦ digits f (n / 10) ++ digit (n % 10) ]

unfoldable pub itoa : ℤ → String
unfolding digits
itoa (pos n) = digits (suc n) n
itoa (negsuc n) = "-" ++ digits (suc (suc n)) (suc n)

abbrev pub is_digit : ℕ → Bool
is_digit c = leb b'0' c && leb c b'9'

-- The value of a run of digits after `acc`; `none` at any other character.
unfoldable pub scan : ℕ → String → Option ℕ
scan acc String.[] = some acc
scan acc (String.◌∷◌ c s) =
    let rest = scan (acc * 10 + (code c - b'0')) s in if is_digit (code c) then rest else none

-- A run of digits that is not empty.
unfoldable pub unsigned : String → Option ℕ
unfolding scan
unsigned String.[] = none
unsigned (String.◌∷◌ c s) = scan 0 (String.◌∷◌ c s)

abbrev in_range : Option ℕ → Option ℤ
in_range none = none
in_range (some n) = if leb n max_int then some (pos n) else none

abbrev negate : Option ℕ → Option ℤ
negate none = none
negate (some zero) = some (pos 0)
negate (some (suc n)) = if leb n max_int then some (negsuc n) else none

-- `none` stands for an error: a syntax error, or a value outside the range of an int.
unfoldable pub atoi : String → Option ℤ
unfolding unsigned
atoi String.[] = none
atoi (String.◌∷◌ c s) =
    if eqb (code c) b'-'
    then negate (unsigned s)
    else if eqb (code c) b'+'
    then in_range (unsigned s)
    else in_range (unsigned (String.◌∷◌ c s))

-- Simple case folding of the ASCII letters, and of the two other code points that fold to one
-- (U+017F to s, U+212A to k).
unfoldable pub fold : ℕ → ℕ
fold c =
    if leb b'A' c && leb c b'Z'
    then c + 32
    else if eqb c 0x17f
    then b's'
    else if eqb c 0x212a
    then b'k'
    else c

unfoldable pub equal_fold : String → String → Bool
unfolding fold
equal_fold String.[] String.[] = true
equal_fold (String.◌∷◌ c s) (String.◌∷◌ d t) = eqb (fold (code c)) (fold (code d)) && equal_fold s t
equal_fold _ _ = false

itoa_run : itoa (pos 1203) ≡ "1203"
unfolding itoa
itoa_run = refl

itoa_negative : itoa (negsuc 41) ≡ "-42"
unfolding itoa
itoa_negative = refl

atoi_run : atoi "1203" ≡ some (pos 1203)
unfolding atoi
atoi_run = refl

atoi_letters : atoi "12a" ≡ none
unfolding atoi
atoi_letters = refl

equal_fold_run : equal_fold "04a1B2" "04A1b2" ≡ true
unfolding equal_fold
equal_fold_run = refl

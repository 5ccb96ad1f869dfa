-- ===== src/Libc.antt =====
-- The functions of the C library that the program reads and prints numbers with. A string is the
-- list of its bytes, without the NUL.
pub mod Digits
pub mod Strings
use Prim.Native.Char.{Char, code}
use Prim.Native.String
use Prim.Native.String.{String}
use psnet.Prelude.{
  ℕ, zero, suc, ◌+◌, ◌-◌, ◌*◌, ◌/◌, ◌%◌, ◌^◌, ◌<◌, ◌≡◌, refl, ◌∙◌, Bool, true, false, ◌&&◌, ◌||◌,
  List, [], ◌∷◌, ◌++◌, arith, ltb, leb, ◌==◌, if◌then◌else◌, ℤ, pos, negsuc, negate, to_int32,
}

abbrev pub Bytes : Type 0
Bytes = List ℕ

-- A string literal of the source.
abbrev pub text : String → Bytes
text String.[] = []
text (String.◌∷◌ c s) = code c ∷ text s

-- The string in a char array: what stands in front of the NUL.
abbrev pub c_string : Bytes → Bytes
c_string [] = []
c_string (b ∷ s) = if b == 0 then [] else b ∷ c_string s

-- A char of a string; behind the last stands the NUL.
abbrev pub char_at : ℕ → Bytes → ℕ
char_at i [] = 0
char_at zero (b ∷ s) = b
char_at (suc i) (b ∷ s) = char_at i s

unfoldable pub bytes_eq : Bytes → Bytes → Bool
bytes_eq [] [] = true
bytes_eq [] (y ∷ ys) = false
bytes_eq (x ∷ xs) [] = false
bytes_eq (x ∷ xs) (y ∷ ys) = (x == y) && bytes_eq xs ys

abbrev is_space : ℕ → Bool
is_space c = (c == 32) || (leb 9 c && leb c 13)

abbrev pub is_digit : ℕ → Bool
is_digit c = leb b'0' c && leb c b'9'

unfoldable skip_space : Bytes → Bytes
skip_space [] = []
skip_space (c ∷ s) = if is_space c then skip_space s else c ∷ s

-- The digits in front of a string, read in base 10 on top of `acc`, and what follows them.
unfoldable scan_digits : ℕ → Bytes → ℕ × Bytes
scan_digits acc [] = (acc, [])
scan_digits acc (c ∷ s) =
    let rest = scan_digits (acc * 10 + (c - b'0')) s in if is_digit c then rest else (acc, c ∷ s)

-- A long has 64 bits, and strtol stops at its ends.
unfoldable clamp_pos : ℕ → ℤ
clamp_pos n = if ltb n (2 ^ 63) then pos n else pos (2 ^ 63 - 1)

unfoldable clamp_neg : ℕ → ℤ
clamp_neg n = if leb n (2 ^ 63) then negate n else negsuc (2 ^ 63 - 1)

-- With no digit there is no conversion: 0, and `endptr` is the whole string `s`.
unfoldable convert : (ℕ → ℤ) → Bytes → Bytes → ℤ × Bytes
convert sign s [] = (pos 0, s)
convert sign s (c ∷ t) =
    if is_digit c then (sign (scan_digits 0 (c ∷ t)).0, (scan_digits 0 (c ∷ t)).1) else (pos 0, s)

unfoldable signed : Bytes → Bytes → ℤ × Bytes
signed s [] = (pos 0, s)
signed s (c ∷ t) =
    if c == b'-'
    then convert clamp_neg s t
    else if c == b'+'
    then convert clamp_pos s t
    else convert clamp_pos s (c ∷ t)

-- `strtol(s, &endptr, 10)`: the value and the string at `endptr`.
unfoldable pub strtol : Bytes → ℤ × Bytes
unfolding skip_space scan_digits clamp_pos clamp_neg convert signed
strtol s = signed s (skip_space s)

-- `atoi(s)`.
abbrev pub atoi : Bytes → ℤ
atoi s = to_int32 (strtol s).0

-- `%lu`, and `%d` at a number that is not negative. The fuel bounds the number of digits.
unfoldable pub digits_of : ℕ → ℕ → Bytes → Bytes
digits_of zero n acc = acc
digits_of (suc fuel) n acc =
    let rest = digits_of fuel (n / 10) ((b'0' + n % 10) ∷ acc) in
    if ltb n 10 then (b'0' + n) ∷ acc else rest

unfoldable pub decimal : ℕ → Bytes
unfolding digits_of
decimal n = digits_of (suc n) n []

-- `%d` of an int.
unfoldable pub decimal_int : ℤ → Bytes
unfolding decimal
decimal_int (pos n) = decimal n
decimal_int (negsuc n) = b'-' ∷ decimal (suc n)

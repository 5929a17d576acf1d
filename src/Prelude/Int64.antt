-- ===== src/Prelude/Int64.antt =====
-- Go's int64: an integer, with the wrap-around of addition and subtraction written out.
use Prim.Native.Nat.{ℕ, suc, ◌+◌, ◌-◌, ◌*◌, ◌%◌, ◌^◌, ◌≤◌, ◌<◌}
use mathlib.Core.Path.{◌≡◌, refl}
use mathlib.Core.Bool.{Bool, true, false, ◌&&◌, ◌||◌}
use mathlib.Core.Option.{Option, none, some}
use mathlib.Core.List.{[], ◌∷◌}
use native.Mathlib.Omega.{arith}
use aws_efs_csi_driver.Prelude.Tests.{ltb, leb, ◌==◌, if◌then◌else◌}
use aws_efs_csi_driver.Prelude.Bytes.{GoString, codes, str_eq}

-- `negsuc n` is -(n + 1).
pub data ℤ : Type 0 where
  pos : ℕ → ℤ
  negsuc : ℕ → ℤ

abbrev pub pos_part : ℤ → ℕ
pos_part (pos n) = n
pos_part (negsuc n) = 0

abbrev pub neg_part : ℤ → ℕ
neg_part (pos n) = 0
neg_part (negsuc n) = suc n

infix 50 ◌≤ℤ◌
abbrev pub ◌≤ℤ◌ : ℤ → ℤ → Type 0
a ≤ℤ b = pos_part a + neg_part b ≤ pos_part b + neg_part a

-- `a <= b`, `a < b`, `a == b`
abbrev pub le_int : ℤ → ℤ → Bool
le_int a b = leb (pos_part a + neg_part b) (pos_part b + neg_part a)

abbrev pub lt_int : ℤ → ℤ → Bool
lt_int a b = ltb (pos_part a + neg_part b) (pos_part b + neg_part a)

abbrev pub eq_int : ℤ → ℤ → Bool
eq_int a b = pos_part a + neg_part b == pos_part b + neg_part a

abbrev pub minus_one : ℤ
minus_one = negsuc 0

-- The two's complement bit pattern, and the integer that a pattern stands for.
abbrev pub to_word : ℤ → ℕ
to_word (pos n) = n % 2 ^ 64
to_word (negsuc n) = 2 ^ 64 - 1 - n % 2 ^ 64

abbrev pub of_word : ℕ → ℤ
of_word w = if ltb w (2 ^ 63) then pos w else negsuc (2 ^ 64 - 1 - w)

unfoldable pub add_int64 : ℤ → ℤ → ℤ
add_int64 a b = of_word ((to_word a + to_word b) % 2 ^ 64)

unfoldable pub sub_int64 : ℤ → ℤ → ℤ
sub_int64 a b = of_word ((to_word a + 2 ^ 64 - to_word b) % 2 ^ 64)

-- Where the true sum and difference are in range, they are what is computed.
pub add_int64_pos : (a b : ℕ) → a + b < 2 ^ 63 → add_int64 (pos a) (pos b) ≡ pos (a + b)
unfolding add_int64
add_int64_pos a b h = ground arith

pub add_int64_negsuc :
    (a b : ℕ) → suc b ≤ a → a < 2 ^ 63 → add_int64 (pos a) (negsuc b) ≡ pos (a - suc b)
unfolding add_int64
add_int64_negsuc a b h k = ground arith

pub sub_int64_pos : (a b : ℕ) → b ≤ a → a < 2 ^ 63 → sub_int64 (pos a) (pos b) ≡ pos (a - b)
unfolding sub_int64
sub_int64_pos a b h k = ground arith

-- The value of a text of decimal digits.
digits_value : ℕ → GoString → Option ℕ
digits_value n [] = some n
digits_value n (c ∷ s) =
    let rest = digits_value (n * 10 + (c - b'0')) s in
    if leb b'0' c && leb c b'9' then rest else none

abbrev unsigned : GoString → Option ℕ
unsigned [] = none
unsigned (c ∷ s) = digits_value 0 (c ∷ s)

abbrev in_range : Bool → Option ℕ → Option ℤ
in_range negative none = none
in_range false (some n) = if ltb n (2 ^ 63) then some (pos n) else none
in_range true (some n) =
    if n == 0 then some (pos 0) else if leb n (2 ^ 63) then some (negsuc (n - 1)) else none

-- `strconv.ParseInt(s, 10, 64)`; `none` is its error
unfoldable pub parse_int64 : GoString → Option ℤ
unfolding digits_value
parse_int64 [] = none
parse_int64 (c ∷ s) =
    if c == b'-'
    then in_range true (unsigned s)
    else if c == b'+'
    then in_range false (unsigned s)
    else in_range false (unsigned (c ∷ s))

abbrev pub IsInt64 : ℤ → Type 0
IsInt64 z = (pos_part z < 2 ^ 63) × (neg_part z ≤ 2 ^ 63)

in_range-IsInt64 : (b : Bool) (o : Option ℕ) (z : ℤ) → in_range b o ≡ some z → IsInt64 z
in_range-IsInt64 b none z h = cc
in_range-IsInt64 false (some n) z h = ground arith
in_range-IsInt64 true (some n) z h = ground arith

pub parse_int64-IsInt64 : (s : GoString) (z : ℤ) → parse_int64 s ≡ some z → IsInt64 z
unfolding parse_int64
parse_int64-IsInt64 [] z h = cc
parse_int64-IsInt64 (c ∷ s) z h = ground (
  arith,
  in_range-IsInt64 true (unsigned s) z,
  in_range-IsInt64 false (unsigned s) z,
  in_range-IsInt64 false (unsigned (c ∷ s)) z,
)

-- `strconv.ParseBool(s)`; `none` is its error
unfoldable pub parse_bool : GoString → Option Bool
parse_bool s =
    if str_eq s (codes "1")
      || str_eq s (codes "t")
      || str_eq s (codes "T")
      || str_eq s (codes "true")
      || str_eq s (codes "TRUE")
      || str_eq s (codes "True")
    then some true
    else if str_eq s (codes "0")
        || str_eq s (codes "f")
        || str_eq s (codes "F")
        || str_eq s (codes "false")
        || str_eq s (codes "FALSE")
        || str_eq s (codes "False")
    then some false
    else none

parse_int64_tests :
    (parse_int64 (codes "-12") ≡ some (negsuc 11))
    × (parse_int64 (codes "9223372036854775808") ≡ none)
    × (parse_int64 (codes "+") ≡ none)
unfolding parse_int64
parse_int64_tests = (refl, refl, refl)

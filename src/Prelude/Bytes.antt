-- ===== src/Prelude/Bytes.antt =====
-- Go strings as lists of bytes: comparison, prefixes, membership.
use Prim.Native.Nat.{ℕ, suc, ◌+◌}
use Prim.Native.Char.{code}
use Prim.Native.String.{String}
use mathlib.Core.Path.{◌≡◌, refl}
use mathlib.Core.Logic.{◌↔◌, ◌≢◌}
use mathlib.Core.Bool.{Bool, true, false, ◌&&◌, ◌||◌}
use mathlib.Core.List.{List, [], ◌∷◌, ◌++◌, reverse, map}
use native.Mathlib.Omega.{arith}
use aws_efs_csi_driver.Prelude.Tests.{leb, ◌==◌, if◌then◌else◌}
use aws_efs_csi_driver.Prelude.Lists.{length, drop, All, All-append}

abbrev pub GoString : Type 0
GoString = List ℕ

-- The bytes of a literal.
abbrev pub codes : String → GoString
codes String.[] = []
codes (String.◌∷◌ c s) = code c ∷ codes s

-- `s == t`
abbrev pub str_eq : GoString → GoString → Bool
str_eq [] [] = true
str_eq [] (_ ∷ _) = false
str_eq (_ ∷ _) [] = false
str_eq (x ∷ xs) (y ∷ ys) = x == y && str_eq xs ys

pub str_eq_refl : (s : GoString) → str_eq s s ≡ true
str_eq_refl [] = refl
str_eq_refl (x ∷ xs) = ground (arith, str_eq_refl xs)

pub eq_of_str_eq : (s t : GoString) → str_eq s t ≡ true → s ≡ t
eq_of_str_eq [] [] h = refl
eq_of_str_eq [] (y ∷ ys) h = cc
eq_of_str_eq (x ∷ xs) [] h = cc
eq_of_str_eq (x ∷ xs) (y ∷ ys) h = ground (arith, eq_of_str_eq xs ys)

pub str_eq_iff : (s t : GoString) → (str_eq s t ≡ true) ↔ (s ≡ t)
str_eq_iff s t = (eq_of_str_eq s t, λ e. rw e (str_eq_refl t))

-- `strings.HasPrefix(s, prefix)`
abbrev pub has_prefix : GoString → GoString → Bool
has_prefix s [] = true
has_prefix [] (_ ∷ _) = false
has_prefix (x ∷ s) (c ∷ p) = x == c && has_prefix s p

pub has_prefix-append : (p s : GoString) → has_prefix (p ++ s) p ≡ true
has_prefix-append [] s = refl
has_prefix-append (c ∷ p) s = ground (arith, has_prefix-append p s)

-- A text with a prefix is the prefix followed by the rest.
pub has_prefix-drop : (s p : GoString) → has_prefix s p ≡ true → s ≡ p ++ drop (length p) s
has_prefix-drop s [] h = refl
has_prefix-drop [] (c ∷ p) h = cc
has_prefix-drop (x ∷ s) (c ∷ p) h = ground (arith, has_prefix-drop s p)

-- `strings.TrimPrefix(s, prefix)`
abbrev pub trim_prefix : GoString → GoString → GoString
trim_prefix s p = if has_prefix s p then drop (length p) s else s

-- `strings.Contains(s, sub)`
abbrev pub contains_str : GoString → GoString → Bool
contains_str [] sub = has_prefix [] sub
contains_str (c ∷ s) sub = has_prefix (c ∷ s) sub || contains_str s sub

-- `strings.Count(s, sep)` for a separator of one byte
abbrev pub count_byte : ℕ → GoString → ℕ
count_byte b [] = 0
count_byte b (c ∷ s) = let n = count_byte b s in if c == b then suc n else n

-- `strings.ToLower`, on ASCII letters
pub lower_byte : ℕ → ℕ
lower_byte c = if leb b'A' c && leb c b'Z' then c + 32 else c

unfoldable pub to_lower : GoString → GoString
unfolding lower_byte
to_lower s = map lower_byte s

-- `unicode.IsSpace`, on ASCII
pub is_space : ℕ → Bool
is_space c = c == 32 || (leb 9 c && leb c 13)

pub trim_left : GoString → GoString
trim_left [] = []
trim_left (c ∷ s) = let rest = trim_left s in if is_space c then rest else c ∷ s

-- `strings.TrimSpace`
unfoldable pub trim_space : GoString → GoString
unfolding trim_left is_space
trim_space s = reverse (trim_left (reverse (trim_left s)))

-- No byte of the text is `b`.
abbrev pub Lacks : ℕ → GoString → Type 0
Lacks b = All (λ c. c ≢ b)

-- `slices.Contains` on strings, and the loops that the source writes for it
abbrev pub contains : List GoString → GoString → Bool
contains [] s = false
contains (x ∷ xs) s = str_eq x s || contains xs s

pub contains-append :
    (xs ys : List GoString) (s : GoString)
    → contains (xs ++ ys) s ≡ (contains xs s || contains ys s)
contains-append [] ys s = refl
contains-append (x ∷ xs) ys s = ground (arith, contains-append xs ys s)

-- `if test { options = append(options, option) }`
unfoldable pub append_if : Bool → GoString → List GoString → List GoString
append_if b o os = if b then os ++ o ∷ [] else os

pub contains-append_if :
    (b : Bool) (o : GoString) (os : List GoString) (s : GoString)
    → contains (append_if b o os) s ≡ (contains os s || (b && str_eq o s))
unfolding append_if
contains-append_if b o os s = ground (arith, contains-append os (o ∷ []) s)

pub append_if-All :
    (P : GoString → Type 0) (b : Bool) (o : GoString) (os : List GoString)
    → All P os
    → (b ≡ true → P o)
    → All P (append_if b o os)
unfolding append_if
append_if-All P false o os h k = h
append_if-All P true o os h k = All-append P os (o ∷ []) h (k refl, tt)

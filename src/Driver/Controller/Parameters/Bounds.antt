-- ===== src/Driver/Controller/Parameters/Bounds.antt =====
-- What the parameters of pkg/driver/controller.go let through.
use aws_efs_csi_driver.Prelude.{
  ℕ, zero, suc, ◌^◌, ◌<◌, ◌≡◌, refl, ◌⊎◌, inl, inr, Option, none, some, GoString, codes, arith, ℤ,
  pos, negsuc, minus_one, parse_int64, parse_int64-IsInt64, IsInt64, lt_int, le_int, eq_int, Map,
  lookup, Result, ok, err, >>=-eq-ok, ok-injective, subst, if◌then◌else◌,
}
use aws_efs_csi_driver.Driver.Status.{DriverError}
use aws_efs_csi_driver.Driver.Controller.{invalid}
use aws_efs_csi_driver.Driver.Controller.Parameters.{
  Owner, parse_id, parse_gid_min, parse_gid_max, parse_owner, owner_in_range,
}

-- An ID that is left out or not negative.
abbrev pub LeftOutOrThere : ℤ → Type 0
LeftOutOrThere n = (n ≡ minus_one) ⊎ ((m : ℕ) × (n ≡ pos m))

parse_id-LeftOutOrThere : (o : Option GoString) (n : ℤ) → parse_id o ≡ ok n → LeftOutOrThere n
unfolding parse_id
parse_id-LeftOutOrThere none n e = inl (cc)
parse_id-LeftOutOrThere (some value) n e = parsed (parse_int64 value) e
  where
    parsed :
        (r : Option ℤ)
        → ◌≡◌ {A = Result DriverError ℤ}
            (elim r [
              | none ↦ err invalid
              | some n ↦ if lt_int n (pos 0) then err invalid else ok n
            ])
            (ok n)
        → LeftOutOrThere n
    parsed none e = cc
    parsed (some (pos m)) e = inr (m, ground arith)
    parsed (some (negsuc m)) e = absurd (ground arith)

abbrev min_of : Option ℤ → Result DriverError ℤ
min_of none = err invalid
min_of (some n) = if le_int n (pos 0) then err invalid else ok n

abbrev max_of : ℤ → Option ℤ → Result DriverError ℤ
max_of low none = err invalid
max_of low (some n) = if le_int n low then err invalid else ok n

min_of-Positive :
    (r : Option ℤ) (n : ℤ)
    → ((z : ℤ) → r ≡ some z → IsInt64 z)
    → min_of r ≡ ok n
    → (m : ℕ) × (n ≡ pos (suc m)) × (suc m < 2 ^ 63)
min_of-Positive none n k e = cc
min_of-Positive (some (pos zero)) n k e = absurd (ground arith)
min_of-Positive (some (pos (suc m))) n k e = (m, ground arith, ground (arith, k (pos (suc m)) refl))
min_of-Positive (some (negsuc m)) n k e = absurd (ground arith)

max_of-Above :
    (m : ℕ) (r : Option ℤ) (n : ℤ)
    → ((z : ℤ) → r ≡ some z → IsInt64 z)
    → max_of (pos (suc m)) r ≡ ok n
    → (high : ℕ) × (n ≡ pos high) × (suc m < high) × (high < 2 ^ 63)
max_of-Above m none n k e = cc
max_of-Above m (some (pos h)) n k e =
    (h, ground arith, ground arith, ground (arith, k (pos h) refl))
max_of-Above m (some (negsuc h)) n k e = absurd (ground arith)

-- The two ends of a range as the parameters give it: both or none.
abbrev Ends : ℤ → ℤ → Type 0
Ends low high =
    ((low ≡ pos 0) × (high ≡ pos 0))
    ⊎ ((m h : ℕ) × (low ≡ pos (suc m)) × (high ≡ pos h) × (suc m < h) × (h < 2 ^ 63))

parse_gid_min-Positive :
    (o : Option GoString) (n : ℤ)
    → parse_gid_min o ≡ ok n
    → (n ≡ pos 0) ⊎ ((m : ℕ) × (n ≡ pos (suc m)) × (suc m < 2 ^ 63))
unfolding parse_gid_min
parse_gid_min-Positive none n e = inl (cc)
parse_gid_min-Positive (some v) n e =
    inr (min_of-Positive (parse_int64 v) n (parse_int64-IsInt64 v) e)

given_max :
    (m : ℕ) (r : Option ℤ) (n : ℤ)
    → (if eq_int (pos (suc m)) (pos 0) then err invalid else max_of (pos (suc m)) r) ≡ ok n
    → max_of (pos (suc m)) r ≡ ok n
given_max m r n e = ground arith

parse_gid_max-Ends :
    (low : ℤ) (o : Option GoString) (n : ℤ)
    → (low ≡ pos 0) ⊎ ((m : ℕ) × (low ≡ pos (suc m)) × (suc m < 2 ^ 63))
    → parse_gid_max low o ≡ ok n
    → Ends low n
unfolding parse_gid_max
parse_gid_max-Ends low none n (inl z) e = inl (z, ground arith)
parse_gid_max-Ends low (some v) n (inl z) e = absurd (ground arith)
parse_gid_max-Ends low none n (inr (m, z, b)) e = absurd (ground arith)
parse_gid_max-Ends low (some v) n (inr (m, z, b)) e =
    let above =
      max_of-Above m (parse_int64 v) n (parse_int64-IsInt64 v)
        (given_max m (parse_int64 v) n (subst (λ l. parse_gid_max l (some v) ≡ ok n) z e)) in
    inr (m, above.0, z, above.1, above.2, above.3)

-- The groups from which one is allocated: a range of positive int64 numbers, in order.
abbrev pub HasRange : Owner → Type 0
HasRange o =
    (low high : ℕ) × (o.gid_min ≡ pos low)
    × (o.gid_max ≡ pos high)
    × (0 < low)
    × (low < high)
    × (high < 2 ^ 63)

owner_in_range-HasRange :
    (uid gid low high : ℤ) → Ends low high → HasRange (owner_in_range uid gid low high)
owner_in_range-HasRange uid gid low high (inl (a, b)) =
    (50000, 51000, ground arith, ground arith, omega arith, omega arith, omega arith)
owner_in_range-HasRange uid gid low high (inr (m, h, a, b, c, e)) =
    (suc m, h, ground arith, ground arith, omega arith, c, e)

-- The parameters of a storage class that are let through give a user and a group that are left
-- out or not negative, and a range of positive int64 numbers in order: the one that they name, or
-- 50000 to 51000.
pub parse_owner-HasRange :
    (params : Map GoString) (o : Owner)
    → parse_owner params ≡ ok o
    → LeftOutOrThere o.asked_uid × LeftOutOrThere o.asked_gid × HasRange o
unfolding parse_owner
parse_owner-HasRange params o e =
    let (uid, eu, r) = >>=-eq-ok (parse_id (lookup (codes "uid") params)) _ e in
    let (gid, eg, s) = >>=-eq-ok (parse_id (lookup (codes "gid") params)) _ r in
    let (low, el, t) = >>=-eq-ok (parse_gid_min (lookup (codes "gidRangeStart") params)) _ s in
    let (high, eh, u) = >>=-eq-ok (parse_gid_max low (lookup (codes "gidRangeEnd") params)) _ t in
    let range =
      parse_gid_max-Ends low (lookup (codes "gidRangeEnd") params) high
        (parse_gid_min-Positive _ low el) eh in
    subst (λ x. LeftOutOrThere x.asked_uid × LeftOutOrThere x.asked_gid × HasRange x)
      (ok-injective u)
      (
        parse_id-LeftOutOrThere _ uid eu,
        parse_id-LeftOutOrThere _ gid eg,
        owner_in_range-HasRange uid gid low high range,
      )

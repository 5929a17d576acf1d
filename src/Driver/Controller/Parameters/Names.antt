-- ===== src/Driver/Controller/Parameters/Names.antt =====
-- The names and options of the volumes of namespaces that pkg/driver/controller.go lets through.
use aws_efs_csi_driver.Prelude.{
  ℕ, ◌≤◌, ◌≡◌, ◌⊎◌, inl, inr, true, false, not, ◌&&◌, ◌||◌, [], ◌∷◌, Option, none, some, GoString,
  codes, str_eq, is_empty, length, is_some, arith, ℤ, pos, le_int, parse_int64, Map, lookup, Lacks,
  All, Result, ok, err, reject-ok, >>=-eq-ok, ok-injective, subst, if◌then◌else◌, ltb, ◌==◌,
  has_prefix, to_lower,
}
use aws_efs_csi_driver.EfsNs.FileSystem.{FileSystemOptions, validate_options}
use aws_efs_csi_driver.Driver.Status.{DriverError}
use aws_efs_csi_driver.Driver.Controller.{invalid}
use aws_efs_csi_driver.Driver.Controller.Parameters.Namespaces
use aws_efs_csi_driver.Driver.Controller.Parameters.Namespaces.{
  is_alphanumeric, label_rest, is_label, validate_namespace_name, parse_storage_class,
}

-- The bytes of a DNS label.
abbrev pub IsLabelByte : ℕ → Type 0
IsLabelByte c = (is_alphanumeric c || c == b'-') ≡ true

-- A namespace that is let through: a label of at most 63 bytes, without a colon.
pub record IsNamespaceName (s : GoString) : Type 0 where
  pub there : is_empty s ≡ false
  pub short : length s ≤ 63
  pub of_label_bytes : All IsLabelByte s
  pub plain : Lacks b':' s

label_rest-All : (s : GoString) → label_rest s ≡ true → All IsLabelByte s
label_rest-All [] h = tt
label_rest-All (c ∷ []) h = (ground (arith, h), tt)
label_rest-All (c ∷ x ∷ s) h = (ground (arith, h), label_rest-All (x ∷ s) (ground (arith, h)))

is_label-All : (s : GoString) → is_label s ≡ true → All IsLabelByte s
is_label-All [] h = tt
is_label-All (c ∷ s) h = (ground (arith, h), label_rest-All s (ground (arith, h)))

All-Lacks : (s : GoString) → All IsLabelByte s → Lacks b':' s
All-Lacks [] h = tt
All-Lacks (c ∷ s) h = (λ e. absurd (ground (arith, h.0, e)), All-Lacks s h.1)

-- A namespace that `validateNamespaceName` accepts is not empty, has at most 63 bytes, which are
-- all lower-case letters, digits or hyphens, and so no colon.
pub validate_namespace_name-IsNamespaceName :
    (s : GoString) → validate_namespace_name s ≡ ok tt → IsNamespaceName s
unfolding validate_namespace_name
validate_namespace_name-IsNamespaceName s e =
    let (there, r) = reject-ok (is_empty s) invalid _ e in
    let (short, t) = reject-ok (ltb 63 (length s)) invalid _ r in
    let (lower, u) = reject-ok (not (has_prefix s (to_lower s))) invalid _ t in
    let (label, v) = reject-ok (not (is_label s)) invalid _ u in
    let bytes = is_label-All s (ground (arith, label)) in
    record {
      there = there;
      short = ground (arith, short);
      of_label_bytes = bytes;
      plain = All-Lacks s bytes;
    }

-- The performance mode and the throughput of parsed options.
one_of-Either :
    (a b : GoString) (o : Option GoString) (v : GoString)
    → Namespaces.one_of a b o ≡ ok v
    → (is_empty v ≡ true) ⊎ ((str_eq v a || str_eq v b) ≡ true)
one_of-Either a b none v e = inl (ground arith)
one_of-Either a b (some x) v e = inr (ground arith)

throughput-Positive :
    (o : Option GoString) (t : Option ℤ)
    → Namespaces.parse_throughput o ≡ ok t
    → (t ≡ none) ⊎ ((n : ℤ) × (t ≡ some n) × (le_int n (pos 0) ≡ false))
throughput-Positive none t e = inl (cc)
throughput-Positive (some v) t e = positive (parse_int64 v) e
  where
    positive :
        (r : Option ℤ)
        → ◌≡◌ {A = Result DriverError (Option ℤ)}
            (elim r [
              | none ↦ err invalid
              | some t ↦ if le_int t (pos 0) then err invalid else ok (some t)
            ])
            (ok t)
        → (t ≡ none) ⊎ ((n : ℤ) × (t ≡ some n) × (le_int n (pos 0) ≡ false))
    positive none e = cc
    positive (some n) e = inr (n, ground arith, ground arith)

-- What has been found of the options when they are put together.
pub record IsChecked (o : FileSystemOptions) : Type 0 where
  pub performance_known :
      (is_empty o.performance_mode ≡ true)
      ⊎ ((str_eq o.performance_mode (codes "generalPurpose")
            || str_eq o.performance_mode (codes "maxIO"))
          ≡ true)
  pub throughput_known :
      (is_empty o.throughput_mode ≡ true)
      ⊎ ((str_eq o.throughput_mode (codes "bursting")
            || str_eq o.throughput_mode (codes "provisioned"))
          ≡ true)
  pub throughput_positive :
      (o.provisioned_throughput_in_mibps ≡ none)
      ⊎ ((n : ℤ) × (o.provisioned_throughput_in_mibps ≡ some n) × (le_int n (pos 0) ≡ false))
  pub provisioned_there :
      (str_eq o.throughput_mode (codes "provisioned")
        && not (is_some o.provisioned_throughput_in_mibps))
      ≡ false

parse_storage_class-IsChecked :
    (params : Map GoString) (o : FileSystemOptions)
    → parse_storage_class params ≡ ok o
    → IsChecked o
unfolding parse_storage_class
parse_storage_class-IsChecked params o e =
    let (p, ep, r) =
      >>=-eq-ok
        (Namespaces.one_of (codes "generalPurpose") (codes "maxIO")
          (lookup (codes "performanceMode") params))
        _ e in
    let (t, et, s) =
      >>=-eq-ok
        (Namespaces.one_of (codes "bursting") (codes "provisioned")
          (lookup (codes "throughputMode") params))
        _ r in
    let (m, em, u) =
      >>=-eq-ok (Namespaces.parse_throughput (lookup (codes "provisionedThroughputInMibps") params))
        _ s in
    let (there, v) = reject-ok (str_eq t (codes "provisioned") && not (is_some m)) invalid _ u in
    let (bursting, x) = reject-ok (str_eq t (codes "bursting") && is_some m) invalid _ v in
    let (enc, ee, y) =
      >>=-eq-ok (Namespaces.parse_encrypted (lookup (codes "encrypted") params)) _ x in
    let (kms, ek, z) =
      >>=-eq-ok (Namespaces.parse_kms_key enc (lookup (codes "kmsKeyId") params)) _ y in
    subst IsChecked (ok-injective z) (record {
      performance_known = one_of-Either _ _ (lookup (codes "performanceMode") params) p ep;
      throughput_known = one_of-Either _ _ (lookup (codes "throughputMode") params) t et;
      throughput_positive = throughput-Positive _ m em;
      provisioned_there = there;
    })

-- Whatever options `parseEFSNSStorageClassParameters` makes of the parameters of a storage class,
-- `Validate` accepts them.
pub parse_storage_class-valid :
    (params : Map GoString) (o : FileSystemOptions)
    → parse_storage_class params ≡ ok o
    → validate_options o ≡ ok tt
unfolding validate_options
parse_storage_class-valid params o e = checked o (parse_storage_class-IsChecked params o e)
  where
    checked : (o : FileSystemOptions) → IsChecked o → validate_options o ≡ ok tt
    checked o h =
        ground (
          arith, h.performance_known, h.throughput_known, h.throughput_positive,
          h.provisioned_there,
        )

-- ===== src/Driver/Controller/Create/Options.antt =====
-- What `CreateVolume` asks `CreateAccessPoint` for.
use aws_efs_csi_driver.Prelude.{
  ℕ, ◌-◌, ◌^◌, ◌≤◌, ◌≡◌, refl, ◌⊎◌, inl, inr, true, false, List, [], ◌∷◌, Option, GoString, codes,
  count_byte, length, is_some, arith, ℤ, pos, minus_one, lt_int, eq_int, join_path, Map, lookup,
  insert, lookup-insert, Result, ok, err, reject-ok, ok-injective, ap, sym, subst, ◌∙◌, ltb,
  Bool-cases,
}
use aws_efs_csi_driver.Cloud.Types.{
  FileSystem, AccessPoint, AccessPointOptions, PosixUser, CloudError, CloudClient,
}
use aws_efs_csi_driver.Driver.Action.{continue-eq-ok, pure_step}
use aws_efs_csi_driver.Driver.Status.{DriverError}
use aws_efs_csi_driver.Driver.Gid.Search.{get_next_gid-Allocates, last_gid}
use aws_efs_csi_driver.Driver.Controller.{Driver, CreateRequest, parameter, invalid}
use aws_efs_csi_driver.Driver.Controller.Parameters.{Owner, validate_efs_path_requirements}
use aws_efs_csi_driver.Driver.Controller.Parameters.Bounds.{HasRange, LeftOutOrThere}
use aws_efs_csi_driver.Driver.Controller.Create
use aws_efs_csi_driver.Driver.Controller.Create.{
  access_point_tags, needs_gid, with_allocated, allocate, posix_user_for, creation_options,
  options_of, root_directory_name,
}

-- The ID that is asked for, or one of the range where none is.
abbrev pub Fits : Owner → ℤ → ℤ → Type 0
Fits o asked given =
    ((m : ℕ) × (asked ≡ pos m) × (given ≡ pos m))
    ⊎ ((low next high : ℕ) × (asked ≡ minus_one)
        × (given ≡ pos next)
        × (o.gid_min ≡ pos low)
        × (o.gid_max ≡ pos high)
        × (low ≤ next)
        × (next ≤ high))

-- The range ends below the largest int64.
abbrev pub EndsBelow : Owner → Type 0
EndsBelow o = lt_int o.gid_max (pos (2 ^ 63 - 1)) ≡ true

abbrev pub UserFits : Owner → PosixUser → Type 0
UserFits o user = Fits o o.asked_uid user.uid × Fits o o.asked_gid user.gid

or_allocated-Fits :
    (o : Owner) (asked : ℤ) (low next high : ℕ)
    → LeftOutOrThere asked
    → o.gid_min ≡ pos low
    → o.gid_max ≡ pos high
    → low ≤ next
    → next ≤ high
    → Fits o asked (Create.or_allocated asked (pos next))
or_allocated-Fits o asked low next high (inl e) a b c f =
    inr (low, next, high, e, ground (arith, e), a, b, c, f)
or_allocated-Fits o asked low next high (inr (m, e)) a b c f = inl (m, e, ground (arith, e))

last_gid_bound : (low high : ℕ) → low ≤ high → last_gid low high ≤ high
last_gid_bound low high h = ground arith

allocate-Fits :
    (o : Owner) (aps : List (Option AccessPoint)) (user : PosixUser)
    → LeftOutOrThere o.asked_uid
    → LeftOutOrThere o.asked_gid
    → HasRange o
    → EndsBelow o
    → allocate o aps ≡ ok user
    → UserFits o user
unfolding allocate
allocate-Fits o aps user u g (low, high, a, b, p, l, m) below e =
    elim (get_next_gid-Allocates aps low high (omega arith) (ground (arith, below, b))) [
      | inl (next, f, least) ↦
          let same : with_allocated o (pos next) ≡ user =
            ok-injective (sym (rw (a, b, f, allocate) refl) ∙ e) in
          subst (UserFits o) same (
            or_allocated-Fits o o.asked_uid low next high u a b least.above
                (omega (arith, least.within, last_gid_bound low high)),
            or_allocated-Fits o o.asked_gid low next high g a b least.above
                (omega (arith, least.within, last_gid_bound low high)),
          )
      | inr (f, taken) ↦ absurd (ground (arith, a, b, f, e))
    ]

listed_pair :
    {W : Type 0} (d : Driver W) (o : Owner) (r : Result CloudError (List (Option AccessPoint)) × W)
    (user : PosixUser) (v : W)
    → Create.owner_listed d o r ≡ (ok user, v)
    → (aps : List (Option AccessPoint)) × (allocate o aps ≡ ok user)
listed_pair d o (ok aps, w) user v e = (aps, ap (λ (x : Result DriverError PosixUser × _). x.0) e)
listed_pair d o (err x, w) user v e = absurd (cc)

described_pair :
    {W : Type 0} (d : Driver W) (o : Owner) (r : Result CloudError FileSystem × W)
    (user : PosixUser) (v : W)
    → Create.owner_described d o r ≡ (ok user, v)
    → user ≡ record { gid = o.asked_gid; uid = o.asked_uid }
described_pair d o (ok fs, w) user v e = cc
described_pair d o (err x, w) user v e = absurd (cc)

asked-Fits :
    (o : Owner) (asked : ℤ)
    → LeftOutOrThere asked
    → eq_int asked minus_one ≡ false
    → Fits o asked asked
asked-Fits o asked (inl e) h = absurd (ground (arith, e))
asked-Fits o asked (inr (m, e)) h = inl (m, e, e)

module _ {W : Type 0} (d : Driver W) (o : Owner) (u : LeftOutOrThere o.asked_uid)
    (g : LeftOutOrThere o.asked_gid) (range : HasRange o) (below : EndsBelow o) where
  posix_user_for-Fits :
      (c : CloudClient W) (fs : GoString) (w : W) (user : PosixUser) (v : W)
      → posix_user_for d c fs o w ≡ (ok user, v)
      → UserFits o user
  unfolding posix_user_for
  posix_user_for-Fits c fs w user v e = elim (Bool-cases (needs_gid o)) [
    | inl n ↦
        let (aps, f) = listed_pair d o _ user v (rw n at e) in
        allocate-Fits o aps user u g range below f
    | inr n ↦ subst (UserFits o) (sym (described_pair d o _ user v (rw n at e))) (
      asked-Fits o o.asked_uid u (ground (arith, n)),
      asked-Fits o o.asked_gid g (ground (arith, n)),
    )
  ]

abbrev default_tag_key : GoString
default_tag_key = codes "efs.csi.aws.com/cluster"

add_tags-tagged :
    (k : GoString) (more tags : Map GoString)
    → is_some (lookup k tags) ≡ true
    → is_some (lookup k (Create.add_tags more tags)) ≡ true
add_tags-tagged k [] tags h = h
add_tags-tagged k ((j, v) ∷ more) tags h =
    add_tags-tagged k more (insert j v tags) (ground (arith, h, lookup-insert j k v tags))

-- What may be asked for: the file system of the request, a path within the limits of EFS, a user
-- and a group that fit the parameters, and the tag of the cluster.
pub record IsAcceptable (fs : GoString) (o : Owner) (options : AccessPointOptions) : Type 0 where
  pub of_file_system : options.file_system_id ≡ fs
  pub path_short : length options.directory_path ≤ 100
  pub path_shallow : count_byte b'/' options.directory_path ≤ 5
  pub uid_fits : Fits o o.asked_uid options.uid
  pub gid_fits : Fits o o.asked_gid options.gid
  pub tagged : is_some (lookup default_tag_key options.tags) ≡ true

validate-Bounds :
    (path : GoString)
    → validate_efs_path_requirements path ≡ ok tt
    → (length path ≤ 100) × (count_byte b'/' path ≤ 5)
unfolding validate_efs_path_requirements
validate-Bounds path e =
    let (short, r) = reject-ok (ltb 100 (length path)) invalid _ e in
    let (shallow, s) = reject-ok (ltb 5 (count_byte b'/' path)) invalid _ r in
    (ground (arith, short), ground (arith, shallow))

pub creation_options-IsAcceptable :
    {W : Type 0} (d : Driver W) (c : CloudClient W) (req : CreateRequest) (fs : GoString)
    (o : Owner) (options : AccessPointOptions) (v w : W)
    → LeftOutOrThere o.asked_uid
    → LeftOutOrThere o.asked_gid
    → HasRange o
    → EndsBelow o
    → creation_options d c req fs o v ≡ (ok options, w)
    → IsAcceptable fs o options
unfolding creation_options
creation_options-IsAcceptable d c req fs o options v w u g range below e =
    let (user, v1, eu, r) = continue-eq-ok (posix_user_for d c fs o v) _ e in
    let (name, v2, en, s) = continue-eq-ok (root_directory_name d req.name req.parameters v1) _ r in
    let root = join_path (codes "/" ∷ parameter (codes "basePath") req.parameters ∷ name ∷ []) in
    let (_, v3, ev, t) = continue-eq-ok (pure_step (validate_efs_path_requirements root) v2) _ s in
    let bounds = validate-Bounds root (ap (λ (x : Result DriverError (Unit {0}) × _). x.0) ev) in
    let fits = posix_user_for-Fits d o u g range below c fs v user v1 eu in
    subst (IsAcceptable fs o)
      (ok-injective (ap (λ (x : Result DriverError AccessPointOptions × _). x.0) t))
      (record {
        of_file_system = refl;
        path_short = bounds.0;
        path_shallow = bounds.1;
        uid_fits = fits.0;
        gid_fits = fits.1;
        tagged = add_tags-tagged default_tag_key d.driver_tags _ (ground arith);
      })

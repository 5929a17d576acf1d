-- ===== src/EfsNs/Manager/Creation/SystemTags.antt =====
-- The tags that `buildTags` of pkg/driver/efs-ns/manager.go gives to a file system.
use aws_efs_csi_driver.Prelude.{
  ◌≡◌, refl, sym, ap, subst, ◌∙◌, codes, Bool, true, false, not, [], ◌∷◌, Option, none, some,
  GoString, str_eq, has_prefix, Map, lookup, insert, lookup-insert, Unique, arith, if◌then◌else◌,
  eq_of_str_eq, Bool-cases, inl, inr,
}
use aws_efs_csi_driver.EfsNs.FileSystem.{FileSystemOptions}
use aws_efs_csi_driver.EfsNs.Manager.{namespace_tag, managed_by, created_by}
use aws_efs_csi_driver.EfsNs.Manager.Creation.{
  cluster_tag, system_prefix, system_tags, add_user_tags, build_tags,
}

abbrev or_else : Option GoString → Option GoString → Option GoString
or_else none o = o
or_else (some v) o = some v

lookup_if :
    (b : Bool) (k j v : GoString) (tags : Map GoString)
    → lookup k (if not b then insert j v tags else tags)
      ≡ (if b then lookup k tags else if str_eq j k then some v else lookup k tags)
lookup_if true k j v tags = refl
lookup_if false k j v tags = lookup-insert j k v tags

combine :
    (pj pk jk : Bool) (v : GoString) (lu lt : Option GoString)
    → (jk ≡ true → pj ≡ pk)
    → (jk ≡ true → lu ≡ none)
    → (if pk
        then (if pj then lt else if jk then some v else lt)
        else or_else lu (if pj then lt else if jk then some v else lt))
      ≡ (if pk then lt else or_else (if jk then some v else lu) lt)
combine pj pk jk v lu lt h g = ground arith

add_user_tags-lookup :
    (k : GoString) (user tags : Map GoString)
    → Unique user
    → lookup k (add_user_tags user tags) ≡ (
        if has_prefix k system_prefix
        then lookup k tags
        else or_else (lookup k user) (lookup k tags))
unfolding add_user_tags
add_user_tags-lookup k [] tags u = elim (Bool-cases (has_prefix k system_prefix)) [
  | inl p ↦ rw p refl
  | inr p ↦ rw p refl
]
add_user_tags-lookup k ((j, v) ∷ user) tags u =
    add_user_tags-lookup k user (if not (has_prefix j system_prefix) then insert j v tags else tags)
      u.1
    ∙ subst
        (λ o. (if has_prefix k system_prefix then o else or_else (lookup k user) o) ≡ (
          if has_prefix k system_prefix
          then lookup k tags
          else or_else (if str_eq j k then some v else lookup k user) (lookup k tags)))
        (sym (lookup_if (has_prefix j system_prefix) k j v tags))
        (combine (has_prefix j system_prefix) (has_prefix k system_prefix) (str_eq j k) v
          (lookup k user) (lookup k tags)
          (λ e. ap (λ s. has_prefix s system_prefix) (eq_of_str_eq j k e))
          (λ e. subst (λ s. lookup s user ≡ none) (eq_of_str_eq j k e) u.0))

not_system :
    (s k : GoString)
    → has_prefix s system_prefix ≡ true
    → has_prefix k system_prefix ≡ false
    → str_eq s k ≡ false
not_system s k h g = elim (Bool-cases (str_eq s k)) [
  | inr other ↦ other
  | inl same ↦
      absurd (clash (sym (ap (λ x. has_prefix x system_prefix) (eq_of_str_eq s k same) ∙ g) ∙ h))
]
  where
    clash : false ≡ true → ⊥
    clash e = cc

lookup-system_tags :
    (k namespace cluster_id : GoString)
    → has_prefix k system_prefix ≡ false
    → lookup k (system_tags namespace cluster_id) ≡ none
lookup-system_tags k namespace cluster_id h =
    rw
      (
        not_system namespace_tag k refl h,
        not_system cluster_tag k refl h,
        not_system managed_by k refl h,
        not_system created_by k refl h,
        not_system (codes "kubernetes.io/provisioner") k refl h,
        not_system (codes "kubernetes.io/component") k refl h,
      )
      refl

or_else-none : (o : Option GoString) → or_else o none ≡ o
or_else-none none = refl
or_else-none (some v) = refl

-- If no key occurs twice among the tags of the user: what `buildTags` answers holds, under the
-- prefix kubernetes.io/, the tags of the system and no others, and under every other key the tag
-- of the user, if there is one. The tag Name, which the creation sets afterwards, is left out.
pub build_tags-lookup :
    (k namespace cluster_id : GoString) (options : FileSystemOptions)
    → Unique options.tags
    → lookup k (build_tags namespace cluster_id options) ≡ (
        if has_prefix k system_prefix
        then lookup k (system_tags namespace cluster_id)
        else lookup k options.tags)
unfolding build_tags
build_tags-lookup k namespace cluster_id options u =
    elim (Bool-cases (has_prefix k system_prefix)) [
      | inl system ↦
          add_user_tags-lookup k options.tags (system_tags namespace cluster_id) u ∙ rw system refl
      | inr other ↦
          add_user_tags-lookup k options.tags (system_tags namespace cluster_id) u
          ∙ rw other (
              ap (or_else (lookup k options.tags)) (lookup-system_tags k namespace cluster_id other)
              ∙ or_else-none _)
    ]

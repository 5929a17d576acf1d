-- ===== src/Cloud/Client/Answers.antt =====
-- What the calls of pkg/cloud/cloud.go make of the answers of the EFS API.
use aws_efs_csi_driver.Prelude.{
  ℕ, zero, suc, ◌<◌, ◌≡◌, refl, ◌⊎◌, inl, inr, Bool, true, false, List, [], ◌∷◌, Option, none, some,
  GoString, codes, str_eq, eq_of_str_eq, is_empty, length, All, Result, ok, err, if◌then◌else◌,
  arith, Bool-cases, sym, ap, subst,
}
use aws_efs_csi_driver.Cloud.Types.{MountTarget, CloudError, other_error}
use aws_efs_csi_driver.Cloud.Client
use aws_efs_csi_driver.Cloud.Client.{
  EfsApi, ApiError, MountTargetAnswer, available_targets, target_for_az, nth, read_target,
  pick_target, describe_targets_of,
}

abbrev available : GoString
available = codes "available"

-- An available target of the list.
abbrev pub UsableIn : List MountTargetAnswer → MountTargetAnswer → Type 0
UsableIn ts t = (k : ℕ) × (nth k ts ≡ some t) × (t.life_cycle_state ≡ available)

UsableIn-later :
    (x : MountTargetAnswer) (ts : List MountTargetAnswer) (t : MountTargetAnswer)
    → UsableIn ts t
    → UsableIn (x ∷ ts) t
UsableIn-later x ts t (k, e, a) = (suc k, e, a)

abbrev or_target : MountTargetAnswer → Option MountTargetAnswer → MountTargetAnswer
or_target t none = t
or_target t (some u) = u

some-injective :
    (t u : MountTargetAnswer) → ◌≡◌ {A = Option MountTargetAnswer} (some t) (some u) → t ≡ u
some-injective t u e = ap (or_target t) e

UsableIn-first :
    (n : ℕ) (x : MountTargetAnswer) (ts us : List MountTargetAnswer) (t : MountTargetAnswer)
    → x.life_cycle_state ≡ available
    → ((m : ℕ) → nth m us ≡ some t → UsableIn ts t)
    → nth n (x ∷ us) ≡ some t
    → UsableIn (x ∷ ts) t
UsableIn-first zero x ts us t a h e = (
  0,
  e,
  subst (λ (o : MountTargetAnswer). o.life_cycle_state ≡ available) (some-injective x t e) a,
)
UsableIn-first (suc m) x ts us t a h e = UsableIn-later x ts t (h m e)

nth-available :
    (n : ℕ) (ts : List MountTargetAnswer) (t : MountTargetAnswer)
    → nth n (available_targets ts) ≡ some t
    → UsableIn ts t
nth-available n [] t e = absurd (cc)
nth-available n (x ∷ ts) t e = elim (Bool-cases (str_eq x.life_cycle_state available)) [
  | inr no_use ↦ UsableIn-later x ts t (nth-available n ts t (rw no_use at e))
  | inl usable ↦
      UsableIn-first n x ts (available_targets ts) t
        (eq_of_str_eq x.life_cycle_state available usable) (λ m f. nth-available m ts t f)
        (rw usable at e)
]

-- Where the zone is found, and where it is not.
abbrev pub NoneIn : GoString → List MountTargetAnswer → Type 0
NoneIn az = All (λ (t : MountTargetAnswer). str_eq t.zone_name az ≡ false)

target_for_az-found :
    (ts : List MountTargetAnswer) (az : GoString)
    → ((n : ℕ) × (t : MountTargetAnswer) × (target_for_az ts az ≡ some t)
        × (nth n ts ≡ some t)
        × (t.zone_name ≡ az))
      ⊎ ((target_for_az ts az ≡ none) × NoneIn az ts)
target_for_az-found [] az = inr (refl, tt)
target_for_az-found (x ∷ ts) az = elim (Bool-cases (str_eq x.zone_name az)) [
  | inl e ↦ inl (0, x, rw e refl, refl, eq_of_str_eq x.zone_name az e)
  | inr e ↦ elim (target_for_az-found ts az) [
    | inl (n, t, f, g, h) ↦ inl (suc n, t, rw e f, g, h)
    | inr (f, g) ↦ inr (rw e f, (e, g))
  ]
]

nth_below :
    (n : ℕ) (ts : List MountTargetAnswer)
    → n < length ts
    → (t : MountTargetAnswer) × (nth n ts ≡ some t)
nth_below n [] h = absurd (omega (arith, h))
nth_below zero (t ∷ ts) h = (t, refl)
nth_below (suc n) (t ∷ ts) h = nth_below n ts (omega (arith, h))

-- What `DescribeMountTargets` makes of an answer: an error where no target is available, and else
-- an available target of the answer, which is in the zone if one of them is.
abbrev pub Chosen : GoString → List MountTargetAnswer → Result CloudError MountTarget → Type 0
Chosen az ts r =
    ((available_targets ts ≡ []) × (r ≡ err other_error))
    ⊎ ((t : MountTargetAnswer) × (r ≡ ok (read_target t))
        × UsableIn ts t
        × ((t.zone_name ≡ az) ⊎ (is_empty az ≡ true) ⊎ NoneIn az (available_targets ts)))

module _ {W : Type 0} (api : EfsApi W)
    (below : (n : ℕ) (w : W) → 0 < n → (api.random_below n w).0 < n) where
  nth_answer_lem :
      (us : List MountTargetAnswer) (r : ℕ × W) (t : MountTargetAnswer)
      → nth r.0 us ≡ some t
      → (Client.nth_answer api us r).0 ≡ ok (read_target t)
  nth_answer_lem us (n, w) t e =
      ap (λ (o : Option MountTargetAnswer). (Client.read_nth api o w).0) e

  random_target-Chosen :
      (az : GoString) (ts us : List MountTargetAnswer) (w : W)
      → available_targets ts ≡ us
      → (is_empty az ≡ true) ⊎ NoneIn az us
      → Chosen az ts (Client.random_target api us w).0
  random_target-Chosen az ts [] w e z = inl (e, refl)
  random_target-Chosen az ts (u ∷ us) w e z =
      let (t, f) =
        nth_below (api.random_below (length (u ∷ us)) w).0 (u ∷ us)
          (below (length (u ∷ us)) w (omega arith)) in
      inr (
        t,
        nth_answer_lem (u ∷ us) (api.random_below (length (u ∷ us)) w) t f,
        nth-available (api.random_below (length (u ∷ us)) w).0 ts t (rw e f),
        inr (subst (λ l. (is_empty az ≡ true) ⊎ NoneIn az l) (sym e) z),
      )

  abbrev At : GoString → List MountTargetAnswer → W → Bool → Type 0
  At az ts w b =
      let us = available_targets ts in
      Chosen az ts (Client.or_random api us (if b then none else target_for_az us az) w).0

  in_zone :
      (az : GoString) (ts : List MountTargetAnswer) (w : W)
      → ((n : ℕ) × (t : MountTargetAnswer) × (target_for_az (available_targets ts) az ≡ some t)
          × (nth n (available_targets ts) ≡ some t)
          × (t.zone_name ≡ az))
        ⊎ ((target_for_az (available_targets ts) az ≡ none) × NoneIn az (available_targets ts))
      → At az ts w false
  in_zone az ts w (inl (n, t, f, g, h)) =
      subst (λ o. Chosen az ts (Client.or_random api (available_targets ts) o w).0) (sym f)
        (inr (t, refl, nth-available n ts t g, inl h))
  in_zone az ts w (inr (f, g)) =
      subst (λ o. Chosen az ts (Client.or_random api (available_targets ts) o w).0) (sym f)
        (random_target-Chosen az ts (available_targets ts) w refl (inr g))

  pick_target-Chosen :
      (az : GoString) (ts : List MountTargetAnswer) (w : W)
      → Chosen az ts (pick_target api az (available_targets ts) w).0
  pick_target-Chosen az ts w = elim (Bool-cases (is_empty az)) [
    | inl e ↦
        subst (At az ts w) (sym e)
          (random_target-Chosen az ts (available_targets ts) w refl (inl e))
    | inr e ↦
        subst (At az ts w) (sym e) (in_zone az ts w (target_for_az-found (available_targets ts) az))
  ]

  -- Where the API answers the mount targets of a file system, and `rand.Intn` a number below its
  -- argument, `DescribeMountTargets` fails exactly if none of them is available, and else answers
  -- one that is: one in the zone asked for, unless no zone is asked for or none of the available
  -- ones is in it.
  pub describe_targets_of-Chosen :
      (fs az : GoString) (w v : W) (ts : List MountTargetAnswer)
      → api.describe_targets fs w ≡ (ok ts, v)
      → Chosen az ts (describe_targets_of api fs az w).0
  unfolding describe_targets_of
  describe_targets_of-Chosen fs az w v ts e = rw e (pick_target-Chosen az ts v)

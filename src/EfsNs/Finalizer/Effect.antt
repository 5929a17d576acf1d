-- ===== src/EfsNs/Finalizer/Effect.antt =====
-- What the operations on finalizers leave.
use aws_efs_csi_driver.Prelude.{
  ℕ, zero, suc, ◌≡◌, refl, ◌⊎◌, inl, inr, Bool, true, false, not, ◌&&◌, List, [], ◌∷◌, ◌++◌, Option,
  none, some, GoString, codes, str_eq, str_eq_iff, str_eq_refl, contains, contains-append, Result,
  ok, err, arith, Bool-cases, subst, sym, ap, ◌∙◌, if◌then◌else◌,
}
use aws_efs_csi_driver.EfsNs.Errors.{GoError, is_not_found}
use aws_efs_csi_driver.EfsNs.Finalizer
use aws_efs_csi_driver.EfsNs.Finalizer.{
  ObjectApi, Claim, FinalizerApi, finalizer_name, without, update_answer, get_failed, add_to,
  add_once, remove_from, remove_once, after_wait, after_attempt, unless_cancelled, attempts,
  retry_operation, add_finalizer, remove_finalizer,
}

contains-without :
    (f g : GoString) (fs : List GoString)
    → contains (without f fs) g ≡ (contains fs g && not (str_eq f g))
contains-without f g [] = refl
contains-without f g (x ∷ fs) =
    ground (arith, contains-without f g fs, str_eq_iff x f, str_eq_iff x g, str_eq_iff f g)

without_absent : (f : GoString) (fs : List GoString) → contains fs f ≡ false → without f fs ≡ fs
without_absent f [] h = refl
without_absent f (x ∷ fs) h = ground (arith, without_absent f fs)

without_append :
    (f : GoString) (fs : List GoString) → contains fs f ≡ false → without f (fs ++ f ∷ []) ≡ fs
without_append f [] h = rw (str_eq_refl f) refl
without_append f (x ∷ fs) h = ground (arith, without_append f fs)

without_twice : (f : GoString) (fs : List GoString) → without f (without f fs) ≡ without f fs
without_twice f fs =
    without_absent f (without f fs) (contains-without f f fs ∙ rw (str_eq_refl f) (ground arith))

-- The finalizers with one more, unless it is there.
abbrev marked : GoString → List GoString → List GoString
marked f fs = if contains fs f then fs else fs ++ f ∷ []

marked_absent :
    (f : GoString) (fs : List GoString) → contains fs f ≡ false → marked f fs ≡ fs ++ f ∷ []
marked_absent f fs h = rw h refl

marked_there : (f : GoString) (fs : List GoString) → contains fs f ≡ true → marked f fs ≡ fs
marked_there f fs h = rw h refl

marked_has : (f : GoString) (fs : List GoString) → contains (fs ++ f ∷ []) f ≡ true
marked_has f fs = ground (arith, contains-append fs (f ∷ []) f, str_eq_refl f)

marked_twice : (f : GoString) (fs : List GoString) → marked f (marked f fs) ≡ marked f fs
marked_twice f fs = elim (Bool-cases (contains fs f)) [
  | inl t ↦ ap (marked f) (marked_there f fs t)
  | inr t ↦
      ap (marked f) (marked_absent f fs t)
      ∙ (marked_there f (fs ++ f ∷ []) (marked_has f fs) ∙ sym (marked_absent f fs t))
]

-- What Kubernetes promises of the finalizers of an object, where only this program changes it. An
-- update that answers an error may be done all the same.
pub record ObjectRules {W : Type 0} (object : ObjectApi W) (finalizers : W → List GoString)
    (Missing : W → Type 0) : Type 0 where
  pub gets : (w v : W) (fs : List GoString) → object.get_object w ≡ (ok fs, v) → finalizers w ≡ fs
  pub get_keeps : (w : W) → finalizers (object.get_object w).1 ≡ finalizers w
  pub misses :
      (w v : W) (e : GoError) → object.get_object w ≡ (err e, v) → is_not_found e ≡ true → Missing v
  pub updates :
      (fs : List GoString) (w v : W) → object.update_object fs w ≡ (none, v) → finalizers v ≡ fs
  pub update_fails :
      (fs : List GoString) (w v : W) (e : GoError)
      → object.update_object fs w ≡ (some e, v)
      → (finalizers v ≡ finalizers w) ⊎ (finalizers v ≡ fs)

module _ {W : Type 0} (api : FinalizerApi W) (finalizers : W → List GoString)
    (pauses : (w : W) → finalizers (api.waits w).1 ≡ finalizers w) (Missing : W → Type 0)
    (change : List GoString → List GoString)
    (twice : (fs : List GoString) → change (change fs) ≡ change fs) where
  -- The object is missing, or its finalizers are changed.
  abbrev Changed : List GoString → W → Type 0
  Changed fs v = Missing v ⊎ (finalizers v ≡ change fs)

  -- An operation that changes the finalizers where it succeeds, and may do so where it fails.
  abbrev Does : W → Option GoError × W → Type 0
  Does w (none, v) = Changed (finalizers w) v
  Does w (some e, v) = (finalizers v ≡ finalizers w) ⊎ (finalizers v ≡ change (finalizers w))

  Changed-again :
      (fs gs : List GoString) (v : W) → (gs ≡ fs) ⊎ (gs ≡ change fs) → Changed gs v → Changed fs v
  Changed-again fs gs v d (inl m) = inl m
  Changed-again fs gs v (inl e) (inr c) = inr (c ∙ ap change e)
  Changed-again fs gs v (inr e) (inr c) = inr (c ∙ (ap change e ∙ twice fs))

  module _ (operation : W → Option GoError × W) (does : (w : W) → Does w (operation w)) where
    wait_lem :
        (r : Bool × W) (next : W → Option GoError × W) (v : W)
        → ((u x : W) → next u ≡ (none, x) → Changed (finalizers u) x)
        → after_wait api r next ≡ (none, v)
        → Changed (finalizers r.1) v
    wait_lem (false, u) next v h e = absurd (cc)
    wait_lem (true, u) next v h e = h u v e

    attempt_lem :
        (w : W) (left : ℕ) (r : Option GoError × W) (next : W → Option GoError × W) (v : W)
        → Does w r
        → ((u x : W) → next u ≡ (none, x) → Changed (finalizers u) x)
        → after_attempt api left r next ≡ (none, v)
        → Changed (finalizers w) v
    attempt_lem w left (none, u) next v d h e =
        subst (Changed (finalizers w)) (ap (λ (x : Option GoError × W). x.1) e) d
    attempt_lem w zero (some x, u) next v d h e = absurd (cc)
    attempt_lem w (suc left) (some x, u) next v d h e =
        elim (Bool-cases (Finalizer.is_retryable_here api x)) [
          | inl t ↦
              Changed-again (finalizers w) (finalizers u) v d
                (subst (λ l. Changed l v) (pauses u) (wait_lem (api.waits u) next v h (rw t at e)))
          | inr t ↦ absurd (ground (arith, rw t at e))
        ]

    attempts_lem :
        (left : ℕ) (w v : W) → attempts api left operation w ≡ (none, v) → Changed (finalizers w) v
    unfolding attempts
    attempts_lem zero w v e = absurd (cc)
    attempts_lem (suc left) w v e = elim (Bool-cases (api.cancelled w)) [
      | inl t ↦ absurd (ground (arith, rw t at e))
      | inr t ↦
          attempt_lem w left (operation w) (attempts api left operation) v (does w)
            (λ u x. attempts_lem left u x) (rw t at e)
    ]

  module _ (object : ObjectApi W) (op namespace f : GoString)
      (h : ObjectRules object finalizers Missing) where
    kept :
        (w u : W) (r : Result GoError (List GoString))
        → object.get_object w ≡ (r, u)
        → finalizers u ≡ finalizers w
    kept w u r g =
        subst (λ (x : Result GoError (List GoString) × W). finalizers x.1 ≡ finalizers w) g
          (h.get_keeps w)

    get_failed-Does :
        (w : W) (e : GoError) (v : W)
        → object.get_object w ≡ (err e, v)
        → Does w (get_failed object op namespace f e v)
    get_failed-Does w e v g = elim (Bool-cases (is_not_found e)) [
      | inl t ↦ rw t (inl (h.misses w v e g t))
      | inr t ↦ rw t (inl (kept w v (err e) g))
    ]

    update-Does :
        (w u : W) (new : List GoString) (r : Option GoError × W)
        → object.update_object new u ≡ r
        → finalizers u ≡ finalizers w
        → new ≡ change (finalizers w)
        → Does w (update_answer object op namespace f r)
    update-Does w u new (none, v) e k c = inr (h.updates new u v e ∙ c)
    update-Does w u new (some x, v) e k c = elim (h.update_fails new u v x e) [
      | inl same ↦ inl (same ∙ k)
      | inr done ↦ inr (done ∙ c)
    ]

    -- An attempt that finds nothing to do.
    idle-Does :
        (w v : W) (fs : List GoString)
        → object.get_object w ≡ (ok fs, v)
        → change fs ≡ fs
        → Does w (none, v)
    idle-Does w v fs g c =
        let here = h.gets w v fs g in
        inr (kept w v (ok fs) g ∙ (here ∙ (sym c ∙ ap change (sym here))))

module _ {W : Type 0} (api : FinalizerApi W) (finalizers : W → List GoString)
    (pauses : (w : W) → finalizers (api.waits w).1 ≡ finalizers w) (Missing : W → Type 0)
    (object : ObjectApi W) (op namespace f : GoString)
    (h : ObjectRules object finalizers Missing) where
  add-Does :
      (w : W) (r : Result GoError (List GoString) × W)
      → object.get_object w ≡ r
      → Does api finalizers pauses Missing
          (marked f)
          (marked_twice f)
          w
          (add_to object op namespace f r)
  add-Does w (err e, v) g =
      get_failed-Does api finalizers pauses Missing (marked f) (marked_twice f) object op namespace
        f h w e v g
  add-Does w (ok fs, v) g = elim (Bool-cases (contains fs f)) [
    | inl t ↦ rw t (
        idle-Does api finalizers pauses Missing (marked f) (marked_twice f) object op namespace f h
          w v fs g (marked_there f fs t))
    | inr t ↦ rw t (
        update-Does api finalizers pauses Missing (marked f) (marked_twice f) object op namespace f
          h w v (fs ++ f ∷ []) _ refl
          (kept api finalizers pauses Missing (marked f) (marked_twice f) object op namespace f h w
            v (ok fs) g)
          (sym (marked_absent f fs t) ∙ ap (marked f) (sym (h.gets w v fs g))))
  ]

  remove-Does :
      (w : W) (r : Result GoError (List GoString) × W)
      → object.get_object w ≡ r
      → Does api finalizers pauses Missing
          (without f)
          (without_twice f)
          w
          (remove_from object op namespace f r)
  remove-Does w (err e, v) g =
      get_failed-Does api finalizers pauses Missing (without f) (without_twice f) object op
        namespace f h w e v g
  remove-Does w (ok fs, v) g = elim (Bool-cases (contains fs f)) [
    | inr t ↦ rw t (
        idle-Does api finalizers pauses Missing (without f) (without_twice f) object op namespace f
          h w v fs g (without_absent f fs t))
    | inl t ↦ rw t (
        update-Does api finalizers pauses Missing (without f) (without_twice f) object op namespace
          f h w v (without f fs) _ refl
          (kept api finalizers pauses Missing (without f) (without_twice f) object op namespace f h
            w v (ok fs) g)
          (ap (without f) (sym (h.gets w v fs g))))
  ]

  retried_add :
      (w v : W)
      → retry_operation api (add_once object op namespace f) w ≡ (none, v)
      → Missing v ⊎ (finalizers v ≡ marked f (finalizers w))
  unfolding add_once
  retried_add w v e =
      attempts_lem api finalizers pauses Missing (marked f) (marked_twice f)
        (add_once object op namespace f) (λ u. add-Does u _ refl) 5 w v e

  retried_remove :
      (w v : W)
      → retry_operation api (remove_once object op namespace f) w ≡ (none, v)
      → Missing v ⊎ (finalizers v ≡ without f (finalizers w))
  unfolding remove_once
  retried_remove w v e =
      attempts_lem api finalizers pauses Missing (without f) (without_twice f)
        (remove_once object op namespace f) (λ u. remove-Does u _ refl) 5 w v e

-- A claim without the finalizer of efs-ns, which only this program changes, where an update that
-- answers an error may be done or not: where `AddFinalizer` and then `RemoveFinalizer` succeed,
-- after whatever retries, the claim is missing, or it has in between the finalizers that it had
-- and that of efs-ns after them, and in the end the list of finalizers that it had before.
pub add_finalizer-remove_finalizer :
    {W : Type 0} (api : FinalizerApi W) (finalizers : W → List GoString) (Missing : W → Type 0)
    (c : Claim) (w u v : W)
    → ((w : W) → finalizers (api.waits w).1 ≡ finalizers w)
    → ObjectRules (api.claims c.claim_namespace c.claim_name) finalizers Missing
    → contains c.claim_finalizers finalizer_name ≡ false
    → contains (finalizers w) finalizer_name ≡ false
    → add_finalizer api (some c) w ≡ (none, u)
    → remove_finalizer api (some c) u ≡ (none, v)
    → Missing u
      ⊎ Missing v
      ⊎ ((finalizers u ≡ finalizers w ++ finalizer_name ∷ []) × (finalizers v ≡ finalizers w))
unfolding add_finalizer remove_finalizer
add_finalizer-remove_finalizer api finalizers Missing c w u v pauses h lacks absent added removed =
    both
      (retried_add api finalizers pauses Missing (api.claims c.claim_namespace c.claim_name)
        (codes "AddFinalizer") c.claim_namespace finalizer_name h w u (rw lacks at added))
      (retried_remove api finalizers pauses Missing (api.claims c.claim_namespace c.claim_name)
        (codes "RemoveFinalizer") c.claim_namespace finalizer_name h u v removed)
  where
    both :
        Missing u ⊎ (finalizers u ≡ marked finalizer_name (finalizers w))
        → Missing v ⊎ (finalizers v ≡ without finalizer_name (finalizers u))
        → Missing u
          ⊎ Missing v
          ⊎ ((finalizers u ≡ finalizers w ++ finalizer_name ∷ []) × (finalizers v ≡ finalizers w))
    both (inl m) r = inl m
    both (inr a) (inl m) = inr (inl m)
    both (inr a) (inr r) =
        let more = a ∙ marked_absent finalizer_name (finalizers w) absent in
        inr (
          inr (
            more,
            r
                ∙ (ap (without finalizer_name) more
                    ∙ without_append finalizer_name (finalizers w) absent),
          ))

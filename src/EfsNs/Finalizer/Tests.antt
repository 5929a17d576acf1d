-- ===== src/EfsNs/Finalizer/Tests.antt =====
-- The finalizers of a concrete claim.
use aws_efs_csi_driver.Prelude.{
  ◌≡◌, refl, ◌⊎◌, true, false, List, [], ◌∷◌, Option, none, some, GoString, codes, Result, ok, err,
  ap, sym, Bool, ◌∙◌, inr, ◌++◌,
}
use aws_efs_csi_driver.EfsNs.Errors.{GoError, plain, is_efsns_error}
use aws_efs_csi_driver.EfsNs.Finalizer.{
  ObjectApi, Claim, FinalizerApi, finalizer_name, add_finalizer, remove_finalizer, add_once,
  remove_once, attempts,
}
use aws_efs_csi_driver.EfsNs.Finalizer.Effect.{ObjectRules, add_finalizer-remove_finalizer}

-- The finalizers of the claim, and whether the next update is done but answers an error.
abbrev World : Type 0
World = List GoString × Bool

abbrev update_flaky : List GoString → World → Option GoError × World
update_flaky new (old, true) = (some plain, (new, false))
update_flaky new (old, false) = (none, (new, false))

abbrev object : ObjectApi World
object = record { get_object = λ w. (ok w.0, w); update_object = update_flaky }

abbrev api : FinalizerApi World
api = record {
  claims = λ namespace name. object;
  namespaces = λ name. object;
  volume_handle = λ name w. (ok none, w);
  cancelled = λ w. false;
  waits = λ w. (true, w);
  is_conflict = λ e. false;
  remove_claim = λ namespace name w. (ok true, w);
  claim_count = λ namespace w. (ok 0, w);
  delete_for_namespace = λ namespace id w. (none, w);
  file_system_info = λ namespace w. (err plain, w);
  own_cluster_id = codes "main";
}

abbrev claim : Claim
claim = record {
  claim_name = codes "data";
  claim_namespace = codes "web";
  claim_finalizers = codes "other" ∷ [];
  annotations = [];
  volume_name = [];
}

abbrev before : World
before = (codes "other" ∷ [], true)

abbrev between : World
between = (codes "other" ∷ finalizer_name ∷ [], false)

abbrev after : World
after = (codes "other" ∷ [], false)

-- The first update is done but answers an error; the second attempt finds nothing to do.
added : add_finalizer api (some claim) before ≡ (none, between)
unfolding add_finalizer add_once attempts is_efsns_error
added = refl

removed : remove_finalizer api (some claim) between ≡ (none, after)
unfolding remove_finalizer remove_once attempts
removed = refl

abbrev or_none : Result GoError (List GoString) → List GoString
or_none (ok fs) = fs
or_none (err e) = []

abbrev answered : Option GoError × World → World
answered r = r.1

flaky_state : (fs : List GoString) (w : World) → (update_flaky fs w).1.0 ≡ fs
flaky_state fs (old, true) = refl
flaky_state fs (old, false) = refl

object-Rules : ObjectRules object (λ w. w.0) (λ w. w.0 ≡ [])
object-Rules = record {
  gets = λ w v fs e. ap (λ (x : Result GoError (List GoString) × World). or_none x.0) e;
  get_keeps = λ w. refl;
  misses = λ w v x e m. absurd (cc);
  updates = λ fs w v e. ap (λ x. (answered x).0) (sym e) ∙ flaky_state fs w;
  update_fails = λ fs w v x e. inr (ap (λ x. (answered x).0) (sym e) ∙ flaky_state fs w);
}

add_finalizer-remove_finalizer_example :
    (between.0 ≡ [])
    ⊎ (after.0 ≡ [])
    ⊎ ((between.0 ≡ before.0 ++ finalizer_name ∷ []) × (after.0 ≡ before.0))
add_finalizer-remove_finalizer_example =
    add_finalizer-remove_finalizer api (λ w. w.0) (λ w. w.0 ≡ []) claim before between after
      (λ w. refl) object-Rules refl refl added removed

-- ===== src/Driver/Taints/Tests.antt =====
-- The taint of a concrete node.
use aws_efs_csi_driver.Prelude.{
  ◌≡◌, ◌∙◌, refl, Bool, true, List, [], ◌∷◌, Option, some, codes, ap, sym,
}
use aws_efs_csi_driver.Driver.Taints.{
  Taint, NodeApi, agent_not_ready, remove_not_ready_taint, try_until_succeed, taints_to_keep,
}
use aws_efs_csi_driver.Driver.Taints.Removal.{IsReady, Serves, try_until_succeed-removes}

abbrev node : NodeApi (List Taint)
node = record {
  node_name = codes "node-1";
  connects = λ w. (true, w);
  get_taints = λ name w. (some w, w);
  patch_taints = λ name old new w. (true, new);
}

abbrev tainted : List Taint
tainted =
    record { key = agent_not_ready; value = []; effect = codes "NoExecute" }
    ∷ record { key = codes "other"; value = []; effect = codes "NoSchedule" }
    ∷ []

abbrev or_nothing : Option (List Taint) → List Taint
or_nothing (some ts) = ts
or_nothing _ = []

node-Serves : Serves node (λ w. w)
node-Serves = record {
  named = refl;
  connected = λ w. refl;
  answers = λ w v ts e.
      sym (ap (λ (x : Option (List Taint) × List Taint). x.1) e)
      ∙ ap (λ (x : Option (List Taint) × List Taint). or_nothing x.0) e;
  patches = λ old new w v e. sym (ap (λ (x : Bool × List Taint). x.1) e);
}

try_until_succeed-removes_example :
    (v : List Taint) × (try_until_succeed 1 (remove_not_ready_taint node) (λ w. w) tainted ≡ some v)
    × IsReady v
unfolding remove_not_ready_taint taints_to_keep
try_until_succeed-removes_example =
    try_until_succeed-removes node (λ w. w) node-Serves (λ w. w) 0 tainted refl

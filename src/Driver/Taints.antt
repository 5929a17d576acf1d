-- ===== src/Driver/Taints.antt =====
-- pkg/driver/node.go: the removal of the taint that keeps pods off a node until the driver is
-- ready. The node's taints are those that the API server answers, in a world `W`.
pub mod Removal
mod Tests
use aws_efs_csi_driver.Prelude.{
  ℕ, zero, suc, Bool, true, false, not, List, [], ◌∷◌, Option, none, some, GoString, codes, str_eq,
  is_empty, length, if◌then◌else◌, ◌==◌,
}

-- `corev1.Taint`
pub record Taint : Type 0 where
  pub key : GoString
  pub value : GoString
  pub effect : GoString

-- What the code asks of the environment and of the API server. `patch_taints old new` is the JSON
-- patch that tests for the old taints and replaces them by the new ones; `false` is an error.
pub record NodeApi (W : Type 0) : Type 0 where
  pub node_name : GoString
  pub connects : W → Bool × W
  pub get_taints : GoString → W → Option (List Taint) × W
  pub patch_taints : GoString → List Taint → List Taint → W → Bool × W

abbrev pub agent_not_ready : GoString
agent_not_ready = codes "efs.csi.aws.com/agent-not-ready"

-- The loop over the taints.
unfoldable pub taints_to_keep : List Taint → List Taint
taints_to_keep [] = []
taints_to_keep (t ∷ ts) =
    let rest = taints_to_keep ts in if str_eq t.key agent_not_ready then rest else t ∷ rest

module _ {W : Type 0} (api : NodeApi W) where
  abbrev pub patch_found : Option (List Taint) × W → Bool × W
  patch_found (none, w) = (false, w)
  patch_found (some ts, w) =
      if length (taints_to_keep ts) == length ts
      then (true, w)
      else api.patch_taints api.node_name ts (taints_to_keep ts) w

  abbrev pub with_client : Bool × W → Bool × W
  with_client (false, w) = (true, w)
  with_client (true, w) = patch_found (api.get_taints api.node_name w)

  -- `removeNotReadyTaint`; `true` is a nil error.
  unfoldable pub remove_not_ready_taint : W → Bool × W
  remove_not_ready_taint w =
      if is_empty api.node_name then (true, w) else with_client (api.connects w)

-- One call, and the ones after it where it fails.
abbrev pub or_again : {W : Type 0} → Bool × W → (W → Option W) → Option W
or_again (true, w) again = some w
or_again (false, w) again = again w

-- `tryRemoveNotReadyTaintUntilSucceed`, with fuel for the calls: the state after the call that
-- succeeds, or `none` where all fail. `passes` is what happens during the pause.
unfoldable pub try_until_succeed : {W : Type 0} → ℕ → (W → Bool × W) → (W → W) → W → Option W
try_until_succeed zero remove passes w = none
try_until_succeed (suc n) remove passes w =
    or_again (remove w) (λ v. try_until_succeed n remove passes (passes v))

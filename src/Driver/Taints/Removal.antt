-- ===== src/Driver/Taints/Removal.antt =====
-- The taint is gone in the end.
use aws_efs_csi_driver.Prelude.{
  ℕ, zero, suc, ◌≤◌, ◌≡◌, refl, inl, inr, Bool, true, false, List, [], ◌∷◌, Option, none, some,
  str_eq, is_empty, length, All, arith, ◌==◌, Bool-cases, subst, sym, ◌∙◌, ap,
}
use aws_efs_csi_driver.Driver.Taints.{
  Taint, NodeApi, agent_not_ready, taints_to_keep, patch_found, with_client, remove_not_ready_taint,
  or_again, try_until_succeed,
}

-- None of the taints is the one to be removed.
abbrev pub IsReady : List Taint → Type 0
IsReady = All (λ (t : Taint). str_eq t.key agent_not_ready ≡ false)

taints_to_keep-IsReady : (ts : List Taint) → IsReady (taints_to_keep ts)
unfolding taints_to_keep
taints_to_keep-IsReady [] = tt
taints_to_keep-IsReady (t ∷ ts) = ground (arith, taints_to_keep-IsReady ts)

length-taints_to_keep : (ts : List Taint) → length (taints_to_keep ts) ≤ length ts
unfolding taints_to_keep
length-taints_to_keep [] = omega arith
length-taints_to_keep (t ∷ ts) = ground (arith, length-taints_to_keep ts)

-- Where none is dropped, there was none to drop.
all_kept-IsReady : (ts : List Taint) → (length (taints_to_keep ts) == length ts) ≡ true → IsReady ts
unfolding taints_to_keep
all_kept-IsReady [] h = tt
all_kept-IsReady (t ∷ ts) h = elim (Bool-cases (str_eq t.key agent_not_ready)) [
  | inr e ↦ (e, all_kept-IsReady ts (ground (arith, rw e at h)))
  | inl e ↦ absurd (ground (arith, rw e at h, length-taints_to_keep ts))
]

-- The name of the node is set and a client always connects; and what the API server promises of
-- the taints of the node: it answers those that there are, and a patch that it accepts leaves the
-- new ones.
pub record Serves {W : Type 0} (api : NodeApi W) (taints : W → List Taint) : Type 0 where
  pub named : is_empty api.node_name ≡ false
  pub connected : (w : W) → (api.connects w).0 ≡ true
  pub answers :
      (w v : W) (ts : List Taint) → api.get_taints api.node_name w ≡ (some ts, v) → taints v ≡ ts
  pub patches :
      (old new : List Taint) (w v : W)
      → api.patch_taints api.node_name old new w ≡ (true, v)
      → taints v ≡ new

module _ {W : Type 0} (api : NodeApi W) (taints : W → List Taint) (h : Serves api taints) where
  patch_found-IsReady :
      (w v : W) (r : Option (List Taint) × W)
      → api.get_taints api.node_name w ≡ r
      → patch_found api r ≡ (true, v)
      → IsReady (taints v)
  patch_found-IsReady w v (none, u) e f = absurd (cc)
  patch_found-IsReady w v (some ts, u) e f =
      elim (Bool-cases (length (taints_to_keep ts) == length ts)) [
        | inl k ↦
            subst IsReady
              (sym (h.answers w u ts e) ∙ ap taints (ap (λ (x : Bool × W). x.1) (rw k at f)))
              (all_kept-IsReady ts k)
        | inr k ↦
            subst IsReady (sym (h.patches ts (taints_to_keep ts) u v (rw k at f)))
              (taints_to_keep-IsReady ts)
      ]

  with_client-IsReady :
      (v : W) (r : Bool × W) → r.0 ≡ true → with_client api r ≡ (true, v) → IsReady (taints v)
  with_client-IsReady v (false, w) c f = cc
  with_client-IsReady v (true, w) c f = patch_found-IsReady w v _ refl f

  remove-IsReady : (w v : W) → remove_not_ready_taint api w ≡ (true, v) → IsReady (taints v)
  unfolding remove_not_ready_taint
  remove-IsReady w v f = with_client-IsReady v (api.connects w) (h.connected w) (rw h.named at f)

  -- The state before a call, where the ones before it have failed.
  abbrev pub before_call : (W → W) → ℕ → W → W
  before_call passes zero w = w
  before_call passes (suc k) w = before_call passes k (passes (remove_not_ready_taint api w).1)

  or_again-true : (r : Bool × W) (again : W → Option W) → r.0 ≡ true → or_again r again ≡ some r.1
  or_again-true (true, w) again e = refl
  or_again-true (false, w) again e = cc

  or_again-false :
      (r : Bool × W) (again : W → Option W) → r.0 ≡ false → or_again r again ≡ again r.1
  or_again-false (true, w) again e = cc
  or_again-false (false, w) again e = refl

  answered :
      (w : W) (r : Bool × W) → remove_not_ready_taint api w ≡ r → r.0 ≡ true → IsReady (taints r.1)
  answered w (true, v) e t = remove-IsReady w v e
  answered w (false, v) e t = cc

  -- Where the name of the node is set, the client of Kubernetes always connects, the API server
  -- answers the taints that there are, and a patch that it accepts leaves the new ones: if after
  -- some number of failed calls and pauses the removal would succeed,
  -- `tryRemoveNotReadyTaintUntilSucceed` ends with that call or an earlier one, whatever happens
  -- during the pauses, and no taint of the node is then the one that says that the driver is not
  -- ready. (Without a name or a client, a call succeeds with the taint in place.)
  pub try_until_succeed-removes :
      (passes : W → W) (k : ℕ) (w : W)
      → (remove_not_ready_taint api (before_call passes k w)).0 ≡ true
      → (v : W) × (try_until_succeed (suc k) (remove_not_ready_taint api) passes w ≡ some v)
        × IsReady (taints v)
  unfolding try_until_succeed
  try_until_succeed-removes passes zero w e =
      ((remove_not_ready_taint api w).1, or_again-true _ _ e, answered w _ refl e)
  try_until_succeed-removes passes (suc k) w e =
      elim (Bool-cases (remove_not_ready_taint api w).0) [
        | inl t ↦ ((remove_not_ready_taint api w).1, or_again-true _ _ t, answered w _ refl t)
        | inr f ↦
            let (v, g, r) =
              try_until_succeed-removes passes k (passes (remove_not_ready_taint api w).1) e in
            (v, or_again-false _ _ f ∙ g, r)
      ]

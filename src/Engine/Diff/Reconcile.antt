-- ===== src/Engine/Diff/Reconcile.antt =====
-- What the maps of the state hold after the change set of `compute_diff` has been carried out.
pub mod Maps
pub mod Swept
use aria_underlay.Base.{
  ℕ, Text, List, [], ◌∷◌, Option, none, some, Bool, not, ◌&&◌, ◌≡◌, refl, sym, ap, subst, ◌∙◌,
  ℕ_ord, text_ord, Ord, or_else, if◌then◌else◌, arith,
}
use aria_underlay.Base.BTree.{
  BTreeMap, get, contains_key, insert, IsSorted, Entries, Entries-all, Entries-map, kept,
}
use aria_underlay.Model.{binding_key, neighbor_key}
use aria_underlay.Planner.DevicePlan.{DeviceDesiredState}
use aria_underlay.State.Shadow.{DeviceShadowState}
use aria_underlay.Engine.Normalize.Rekey.{IsKeyed}
use aria_underlay.Engine.Normalize.{normalize_desired_state}
use aria_underlay.Engine.Normalize.Desired.{IsNormal}
use aria_underlay.Engine.Diff.{
  ChangeOp, upsert_ops, delete_ops, diff_ops, is_bound_to, vlan_upserts, vlan_deletes,
  interface_upserts, interface_deletes, acl_upserts, acl_deletes, binding_upserts, binding_deletes,
  process_upserts, process_deletes, neighbor_upserts, neighbor_deletes,
}
use aria_underlay.Engine.Diff.Apply.{apply_ops}
use aria_underlay.Engine.Diff.Runs.{
  run, run-append, run_idle, upsert_ops-All, delete_ops-All, IsIdle,
}
use aria_underlay.Engine.Diff.Runs.Upserts.{Puts, get-run_upserts}
use aria_underlay.Engine.Diff.Runs.Deletes.{marked, Removes, get-run_deletes}
use aria_underlay.Engine.Diff.Actions.{
  vlan_action, interface_action, acl_action, binding_action, process_action, neighbor_action,
  vlans-apply_ops, interfaces-apply_ops, acls-apply_ops, acl_bindings-apply_ops,
  bgp_processes-apply_ops, bgp_neighbors-apply_ops,
}

module _ {ℓ} {M : Type ℓ} (act : ChangeOp → M → M) where
  pub idle_upserts {κ ι} :
      {K : Type κ} {V : Type ι} ⦃o : Ord K⦄ (dec : Discrete V) (create : V → ChangeOp)
      (update : V → V → ChangeOp) (current desired : BTreeMap K V)
      → ((v : V) (m : M) → act (create v) m ≡ m)
      → ((w v : V) (m : M) → act (update w v) m ≡ m)
      → (m : M) → run act (upsert_ops dec create update current desired) m ≡ m
  idle_upserts dec create update current desired c u m = run_idle act _ m (
      upsert_ops-All (IsIdle act) dec create update current desired
        (Entries-all (λ k v. (c v, λ w. u w v)) desired))

  pub idle_deletes {κ ι} :
      {K : Type κ} {W : Type ι} (test : K → W → Bool) (delete : K → W → ChangeOp)
      (deleted : BTreeMap K W)
      → ((k : K) (w : W) (m : M) → act (delete k w) m ≡ m)
      → (m : M) → run act (delete_ops test delete deleted) m ≡ m
  idle_deletes test delete deleted h m =
      run_idle act _ m (delete_ops-All (IsIdle act) test delete deleted h)

  -- The loops one by one.
  module _ (d : DeviceDesiredState) (s : DeviceShadowState) where
    pub run-diff_ops :
        {f₁ f₂ f₃ f₄ f₅ f₆ f₇ f₈ f₉ f₁₀ f₁₁ f₁₂ : M → M}
        → ((m : M) → run act (vlan_upserts d s) m ≡ f₁ m)
        → ((m : M) → run act (interface_upserts d s) m ≡ f₂ m)
        → ((m : M) → run act (interface_deletes d s) m ≡ f₃ m)
        → ((m : M) → run act (vlan_deletes d s) m ≡ f₄ m)
        → ((m : M) → run act (acl_upserts d s) m ≡ f₅ m)
        → ((m : M) → run act (binding_upserts d s) m ≡ f₆ m)
        → ((m : M) → run act (binding_deletes d s) m ≡ f₇ m)
        → ((m : M) → run act (acl_deletes d s) m ≡ f₈ m)
        → ((m : M) → run act (process_upserts d s) m ≡ f₉ m)
        → ((m : M) → run act (neighbor_upserts d s) m ≡ f₁₀ m)
        → ((m : M) → run act (neighbor_deletes d s) m ≡ f₁₁ m)
        → ((m : M) → run act (process_deletes d s) m ≡ f₁₂ m)
        → (m : M)
        → run act (diff_ops d s) m ≡ f₁₂ (f₁₁ (f₁₀ (f₉ (f₈ (f₇ (f₆ (f₅ (f₄ (f₃ (f₂ (f₁ m)))))))))))
    unfolding diff_ops
    run-diff_ops e₁ e₂ e₃ e₄ e₅ e₆ e₇ e₈ e₉ e₁₀ e₁₁ e₁₂ m =
        simp (run-append, e₁, e₂, e₃, e₄, e₅, e₆, e₇, e₈, e₉, e₁₀, e₁₁, e₁₂)

Puts-of_keyed {ℓ κ} :
    {K : Type ℓ} {V : Type κ} ⦃o : Ord K⦄ (act : ChangeOp → BTreeMap K V → BTreeMap K V)
    (create : V → ChangeOp) (update : V → V → ChangeOp) (normalize : V → V) (key : V → K)
    → ((v : V) (m : BTreeMap K V) → act (create v) m ≡ insert (key v) v m)
    → ((w v : V) (m : BTreeMap K V) → act (update w v) m ≡ insert (key v) v m)
    → (desired : BTreeMap K V) → IsKeyed normalize key desired
    → Entries (Puts act create update) desired
Puts-of_keyed act create update normalize key c u = Entries-map λ k v h. (
  λ m. c v m ∙ ap (λ j. insert j v m) (sym h.0),
  λ w m. u w v m ∙ ap (λ j. insert j v m) (sym h.0),
)

-- The binding of a key after upserts and deletions: a deletion is asked for and tested on the
-- current map, and wins over an upsert of the same key.
abbrev pub reconciled {ℓ κ ι} :
    {K : Type ℓ} {V : Type κ} {W : Type ι} ⦃o : Ord K⦄
    → (K → W → Bool)
    → BTreeMap K W
    → BTreeMap K V
    → BTreeMap K V
    → K
    → Option V
reconciled test deleted desired current k =
    if marked test deleted k then none else or_else (get k desired) (get k current)

module _ {ℓ κ ι} {K : Type ℓ} {V : Type κ} {W : Type ι} ⦃o : Ord K⦄
    (act : ChangeOp → BTreeMap K V → BTreeMap K V) (dec : Discrete V) (create : V → ChangeOp)
    (update : V → V → ChangeOp) (test : K → W → Bool) (delete : K → W → ChangeOp)
    (normalize : V → V) (key : V → K)
    (creates : (v : V) (m : BTreeMap K V) → act (create v) m ≡ insert (key v) v m)
    (updates : (w v : V) (m : BTreeMap K V) → act (update w v) m ≡ insert (key v) v m) where
  pub get-reconciled :
      (deleted : BTreeMap K W) (desired current : BTreeMap K V) (k : K)
      → IsSorted deleted
      → Entries (Removes act test delete) deleted
      → IsSorted desired × IsKeyed normalize key desired
      → get k (
          run act
            (delete_ops test delete deleted)
            (run act (upsert_ops dec create update current desired) current))
        ≡ reconciled test deleted desired current k
  get-reconciled deleted desired current k sd r n =
      get-run_deletes act test delete deleted _ k sd r
      ∙ ap (λ x. if marked test deleted k then none else x)
          (get-run_upserts act dec create update current desired current k n.0
            (Puts-of_keyed act create update normalize key creates updates desired n.1)
            (Entries-all (λ _ _. refl) desired))

-- ===== src/Engine/Diff/WellFormed.antt =====
-- Every operation of a change set keeps the maps of a state in order, and in normal form where what
-- it writes is in normal form.
use aria_underlay.Base.{Text, List, [], ◌∷◌, not, ℕ_ord, text_ord}
use aria_underlay.Base.BTree.{
  BTreeMap, same, IsSorted, insert-IsSorted, remove-IsSorted, retain-IsSorted,
}
use aria_underlay.Model.{
  AclBinding, BgpNeighbor, acl_binding_key, binding_key, bgp_neighbor_key, neighbor_key,
}
use aria_underlay.Engine.Diff.{
  ChangeOp, delete_acl, create_acl_binding, update_acl_binding, delete_acl_binding,
  delete_bgp_process, create_bgp_neighbor, update_bgp_neighbor, delete_bgp_neighbor,
}
use aria_underlay.Engine.Diff.Runs.{run}
use aria_underlay.Engine.Diff.Actions.{binding_action, neighbor_action}

pub run-IsSorted {ℓ} :
    {M : Type 0} {P : M → Type ℓ} (act : ChangeOp → M → M)
    → ((op : ChangeOp) (m : M) → P m → P (act op m))
    → (ops : List ChangeOp) (m : M) → P m
    → P (run act ops m)
unfolding run
run-IsSorted act keep [] m h = h
run-IsSorted act keep (op ∷ ops) m h = run-IsSorted act keep ops (act op m) (keep op m h)

pub binding_action-IsSorted :
    (op : ChangeOp) (m : BTreeMap Text AclBinding) → IsSorted m → IsSorted (binding_action op m)
binding_action-IsSorted (create_acl_binding b) m h = insert-IsSorted (binding_key b) b m h
binding_action-IsSorted (update_acl_binding before b) m h = insert-IsSorted (binding_key b) b m h
binding_action-IsSorted (delete_acl_binding i d a) m h = remove-IsSorted (acl_binding_key i d) m h
binding_action-IsSorted (delete_acl a) m h = retain-IsSorted (λ _ b. not (same b.acl_id a)) m h
binding_action-IsSorted _ m h = h

pub neighbor_action-IsSorted :
    (op : ChangeOp) (m : BTreeMap Text BgpNeighbor) → IsSorted m → IsSorted (neighbor_action op m)
neighbor_action-IsSorted (create_bgp_neighbor n) m h = insert-IsSorted (neighbor_key n) n m h
neighbor_action-IsSorted (update_bgp_neighbor before n) m h = insert-IsSorted (neighbor_key n) n m h
neighbor_action-IsSorted (delete_bgp_neighbor v a) m h = remove-IsSorted (bgp_neighbor_key v a) m h
neighbor_action-IsSorted (delete_bgp_process v) m h =
    retain-IsSorted (λ _ n. not (same n.vrf v)) m h
neighbor_action-IsSorted _ m h = h

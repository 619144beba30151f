-- ===== src/Engine/ChangePlan/Staged.antt =====
-- The stages of a change set hold every operation once, and the rollback goes through them backwards.
pub mod Order
use aria_underlay.Base.{
  ℕ, ◌+◌, ◌≤◌, Text, List, [], ◌∷◌, ◌++◌, map, Bool, false, none, some, any, ◌||◌, ◌==◌, text_ord,
  is_nil, All, All-append, ◌≡◌, refl, sym, ap, ◌∙◌, subst, arith, Option,
}
use mathlib.Core.List.{Perm, perm_middle}
use mathlib.Core.List.Perm
use aria_underlay.Base.BTree.{BTreeSet, same}
use aria_underlay.Model.{PortMode, access, trunk}
use aria_underlay.Engine.Diff.{
  ChangeOp, ChangeSet, create_vlan, update_vlan, delete_vlan, update_interface,
  delete_interface_config, create_acl, update_acl, delete_acl, create_acl_binding,
  update_acl_binding, delete_acl_binding, create_bgp_process, update_bgp_process,
  delete_bgp_process, create_bgp_neighbor, update_bgp_neighbor, delete_bgp_neighbor,
}
use aria_underlay.Engine.Profile.{DeviceModelProfile}
use aria_underlay.Engine.ChangePlan.Nodes.{rollback_action_for_op}
use aria_underlay.Engine.ChangePlan.Guard.{HighRiskFeature}
use aria_underlay.Engine.ChangePlan.{
  ChangePlanStageKind, unbind_references, delete_base_objects, create_base_objects,
  update_base_objects, bind_references, ChangePlanStage, Buckets, place, buckets, push_stage,
  stages_of, undo_ops, rollback_order_for_stages, ChangePlan, build_change_plan,
}
use Order.{flatten, buckets-IsSorted, stages_of-Rises, Rises, InOrder, flatten-InOrder}

flatten-push_stage :
    (kind : ChangePlanStageKind) (ops : List ChangeOp) (rest : List ChangePlanStage)
    → flatten (push_stage kind ops rest) ≡ ops ++ flatten rest
unfolding push_stage
flatten-push_stage kind [] rest = refl
flatten-push_stage kind (op ∷ ops) rest = refl

module _ {A : Type 0} where
  later : (a : A) (xs ys zs : List A) → Perm ys (a ∷ zs) → Perm (xs ++ ys) (a ∷ (xs ++ zs))
  later a xs ys zs h = Perm.trans (Perm.append_left xs h) (perm_middle xs zs)

abbrev all_of : Buckets → List ChangeOp
all_of b = b.unbind ++ (b.delete_base ++ (b.create_base ++ (b.update_base ++ (b.bind ++ []))))

flatten-stages_of : (b : Buckets) → flatten (stages_of b) ≡ all_of b
unfolding stages_of
flatten-stages_of b =
    flatten-push_stage unbind_references b.unbind _
    ∙ ap (λ x. b.unbind ++ x)
        (flatten-push_stage delete_base_objects b.delete_base _
          ∙ ap (λ x. b.delete_base ++ x)
              (flatten-push_stage create_base_objects b.create_base _
                ∙ ap (λ x. b.create_base ++ x)
                    (flatten-push_stage update_base_objects b.update_base _
                      ∙ ap (λ x. b.update_base ++ x)
                          (flatten-push_stage bind_references b.bind []))))

place-Perm : (op : ChangeOp) (b : Buckets) → Perm (all_of (place op b)) (op ∷ all_of b)
unfolding place
place-Perm (delete_acl_binding i d a) b = Perm.refl _
place-Perm (delete_bgp_neighbor v a) b = Perm.refl _
place-Perm (delete_acl a) b = perm_middle b.unbind _
place-Perm (delete_vlan v) b = perm_middle b.unbind _
place-Perm (delete_interface_config i) b = perm_middle b.unbind _
place-Perm (delete_bgp_process v) b = perm_middle b.unbind _
place-Perm (create_acl a) b = later _ b.unbind _ _ (perm_middle b.delete_base _)
place-Perm (create_vlan v) b = later _ b.unbind _ _ (perm_middle b.delete_base _)
place-Perm (create_bgp_process p) b = later _ b.unbind _ _ (perm_middle b.delete_base _)
place-Perm (update_acl x a) b =
    later _ b.unbind _ _ (later _ b.delete_base _ _ (perm_middle b.create_base _))
place-Perm (update_vlan x v) b =
    later _ b.unbind _ _ (later _ b.delete_base _ _ (perm_middle b.create_base _))
place-Perm (update_interface x i) b =
    later _ b.unbind _ _ (later _ b.delete_base _ _ (perm_middle b.create_base _))
place-Perm (update_bgp_process x p) b =
    later _ b.unbind _ _ (later _ b.delete_base _ _ (perm_middle b.create_base _))
place-Perm (create_acl_binding a) b =
    later _ b.unbind _ _
      (later _ b.delete_base _ _ (later _ b.create_base _ _ (perm_middle b.update_base _)))
place-Perm (update_acl_binding x a) b =
    later _ b.unbind _ _
      (later _ b.delete_base _ _ (later _ b.create_base _ _ (perm_middle b.update_base _)))
place-Perm (create_bgp_neighbor n) b =
    later _ b.unbind _ _
      (later _ b.delete_base _ _ (later _ b.create_base _ _ (perm_middle b.update_base _)))
place-Perm (update_bgp_neighbor x n) b =
    later _ b.unbind _ _
      (later _ b.delete_base _ _ (later _ b.create_base _ _ (perm_middle b.update_base _)))

buckets-Perm : (ops : List ChangeOp) → Perm (all_of (buckets ops)) ops
unfolding buckets
buckets-Perm [] = Perm.nil
buckets-Perm (op ∷ ops) = Perm.trans (place-Perm op (buckets ops)) (Perm.cons op (buckets-Perm ops))

abbrev pub backwards : List ChangeOp → List ChangeOp
backwards [] = []
backwards (op ∷ ops) = backwards ops ++ op ∷ []

map-append : (f : ChangeOp → Text) (a b : List ChangeOp) → map f (a ++ b) ≡ map f a ++ map f b
map-append f [] b = refl
map-append f (x ∷ a) b = ap (λ r. f x ∷ r) (map-append f a b)

append_assoc : {A : Type 0} (a b c : List A) → (a ++ b) ++ c ≡ a ++ (b ++ c)
append_assoc [] b c = refl
append_assoc (x ∷ a) b c = ap (λ r. x ∷ r) (append_assoc a b c)

append-nil : {A : Type 0} (a : List A) → a ++ [] ≡ a
append-nil [] = refl
append-nil (x ∷ a) = ap (λ r. x ∷ r) (append-nil a)

backwards-append : (a b : List ChangeOp) → backwards (a ++ b) ≡ backwards b ++ backwards a
backwards-append [] b = sym (append-nil (backwards b))
backwards-append (x ∷ a) b =
    ap (λ r. r ++ x ∷ []) (backwards-append a b) ∙ append_assoc (backwards b) (backwards a) (x ∷ [])

undo_ops-backwards :
    (ops : List ChangeOp) → undo_ops ops ≡ map rollback_action_for_op (backwards ops)
unfolding undo_ops
undo_ops-backwards [] = refl
undo_ops-backwards (op ∷ ops) =
    ap (λ r. r ++ rollback_action_for_op op ∷ []) (undo_ops-backwards ops)
    ∙ sym (map-append rollback_action_for_op (backwards ops) (op ∷ []))

rollback-backwards :
    (stages : List ChangePlanStage)
    → rollback_order_for_stages stages ≡ map rollback_action_for_op (backwards (flatten stages))
unfolding rollback_order_for_stages
rollback-backwards [] = refl
rollback-backwards (s ∷ rest) =
    ap (λ r. r ++ undo_ops s.ops) (rollback-backwards rest)
    ∙ ap (λ r. map rollback_action_for_op (backwards (flatten rest)) ++ r)
        (undo_ops-backwards s.ops)
    ∙ sym (map-append rollback_action_for_op (backwards (flatten rest)) (backwards s.ops))
    ∙ sym (ap (map rollback_action_for_op) (backwards-append s.ops (flatten rest)))

-- What is shown of a change set is all of it, in order.
pub record IsStaged (change_set : ChangeSet) (plan : ChangePlan) : Type 0 where
  pub complete : Perm (flatten plan.stages) change_set.ops
  pub ordered : InOrder (flatten plan.stages)
  pub rising : Rises 0 plan.stages
  pub undone : plan.rollback_order ≡ map rollback_action_for_op (backwards (flatten plan.stages))

-- The stages of a change plan hold each operation of the change set as often as it does and no other, in
-- an order that the objects ask for: a binding is deleted before its access list and a neighbor before its
-- process; an access list is created before a binding is created for it or moved to it, a VLAN before an
-- interface is updated to use it, and a process before its neighbors are created or updated. The stages
-- come in the order of their kinds, none twice and none empty, and each holds operations of its kind. The
-- rollback names the action for each operation, from the last one of the stages to the first. Nothing is
-- said of the object that an update leaves.
pub build_change_plan-IsStaged :
    (change_set : ChangeSet) (profile : Option DeviceModelProfile) (evidence : BTreeSet Text)
    (declared : List HighRiskFeature)
    → IsStaged change_set (build_change_plan change_set profile evidence declared)
unfolding build_change_plan
build_change_plan-IsStaged change_set profile evidence declared =
    let rises = stages_of-Rises (buckets change_set.ops) (buckets-IsSorted change_set.ops) in
    record {
      complete =
          subst (λ l. Perm l change_set.ops) (sym (flatten-stages_of (buckets change_set.ops)))
            (buckets-Perm change_set.ops);
      ordered = flatten-InOrder 0 (stages_of (buckets change_set.ops)) rises;
      rising = rises;
      undone = rollback-backwards (stages_of (buckets change_set.ops));
    }

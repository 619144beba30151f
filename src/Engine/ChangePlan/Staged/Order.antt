-- ===== src/Engine/ChangePlan/Staged/Order.antt =====
-- The kinds of the stages, and the order of the operations that follows from theirs.
use aria_underlay.Base.{
  ℕ, ◌+◌, ◌≤◌, List, [], ◌∷◌, ◌++◌, Bool, false, none, some, any, ◌||◌, ◌==◌, text_ord, is_nil, All,
  All-append, ◌≡◌, refl, sym, subst, arith,
}
use aria_underlay.Base.BTree.{same}
use aria_underlay.Model.{PortMode, access, trunk}
use aria_underlay.Engine.Diff.{
  ChangeOp, create_vlan, update_vlan, delete_vlan, update_interface, delete_interface_config,
  create_acl, update_acl, delete_acl, create_acl_binding, update_acl_binding, delete_acl_binding,
  create_bgp_process, update_bgp_process, delete_bgp_process, create_bgp_neighbor,
  update_bgp_neighbor, delete_bgp_neighbor,
}
use aria_underlay.Engine.ChangePlan.{
  ChangePlanStageKind, unbind_references, delete_base_objects, create_base_objects,
  update_base_objects, bind_references, ChangePlanStage, Buckets, place, buckets, push_stage,
  stages_of,
}

-- All operations in the order of the stages.
abbrev pub flatten : List ChangePlanStage → List ChangeOp
flatten [] = []
flatten (s ∷ rest) = s.ops ++ flatten rest

-- The stage that an operation belongs to, as a table.
unfoldable pub stage_of : ChangeOp → ChangePlanStageKind
stage_of (delete_acl_binding _ _ _) = unbind_references
stage_of (delete_bgp_neighbor _ _) = unbind_references
stage_of (delete_acl _) = delete_base_objects
stage_of (delete_vlan _) = delete_base_objects
stage_of (delete_interface_config _) = delete_base_objects
stage_of (delete_bgp_process _) = delete_base_objects
stage_of (create_acl _) = create_base_objects
stage_of (create_vlan _) = create_base_objects
stage_of (create_bgp_process _) = create_base_objects
stage_of (update_acl _ _) = update_base_objects
stage_of (update_vlan _ _) = update_base_objects
stage_of (update_interface _ _) = update_base_objects
stage_of (update_bgp_process _ _) = update_base_objects
stage_of (create_acl_binding _) = bind_references
stage_of (update_acl_binding _ _) = bind_references
stage_of (create_bgp_neighbor _) = bind_references
stage_of (update_bgp_neighbor _ _) = bind_references

abbrev InStage : ChangePlanStageKind → List ChangeOp → Type 0
InStage kind ops = All (λ op. stage_of op ≡ kind) ops

abbrev IsSorted : Buckets → Type 0
IsSorted b =
    InStage unbind_references b.unbind
    × InStage delete_base_objects b.delete_base
    × InStage create_base_objects b.create_base
    × InStage update_base_objects b.update_base
    × InStage bind_references b.bind

place-IsSorted : (op : ChangeOp) (b : Buckets) → IsSorted b → IsSorted (place op b)
unfolding place stage_of
place-IsSorted (delete_acl_binding i d a) b h = ((refl, h.0), h.1, h.2, h.3, h.4)
place-IsSorted (delete_bgp_neighbor v a) b h = ((refl, h.0), h.1, h.2, h.3, h.4)
place-IsSorted (delete_acl a) b h = (h.0, (refl, h.1), h.2, h.3, h.4)
place-IsSorted (delete_vlan v) b h = (h.0, (refl, h.1), h.2, h.3, h.4)
place-IsSorted (delete_interface_config i) b h = (h.0, (refl, h.1), h.2, h.3, h.4)
place-IsSorted (delete_bgp_process v) b h = (h.0, (refl, h.1), h.2, h.3, h.4)
place-IsSorted (create_acl a) b h = (h.0, h.1, (refl, h.2), h.3, h.4)
place-IsSorted (create_vlan v) b h = (h.0, h.1, (refl, h.2), h.3, h.4)
place-IsSorted (create_bgp_process p) b h = (h.0, h.1, (refl, h.2), h.3, h.4)
place-IsSorted (update_acl x a) b h = (h.0, h.1, h.2, (refl, h.3), h.4)
place-IsSorted (update_vlan x v) b h = (h.0, h.1, h.2, (refl, h.3), h.4)
place-IsSorted (update_interface x i) b h = (h.0, h.1, h.2, (refl, h.3), h.4)
place-IsSorted (update_bgp_process x p) b h = (h.0, h.1, h.2, (refl, h.3), h.4)
place-IsSorted (create_acl_binding a) b h = (h.0, h.1, h.2, h.3, (refl, h.4))
place-IsSorted (update_acl_binding x a) b h = (h.0, h.1, h.2, h.3, (refl, h.4))
place-IsSorted (create_bgp_neighbor n) b h = (h.0, h.1, h.2, h.3, (refl, h.4))
place-IsSorted (update_bgp_neighbor x n) b h = (h.0, h.1, h.2, h.3, (refl, h.4))

pub buckets-IsSorted : (ops : List ChangeOp) → IsSorted (buckets ops)
unfolding buckets
buckets-IsSorted [] = (tt, tt, tt, tt, tt)
buckets-IsSorted (op ∷ ops) = place-IsSorted op (buckets ops) (buckets-IsSorted ops)

abbrev pub rank : ChangePlanStageKind → ℕ
rank unbind_references = 0
rank delete_base_objects = 1
rank create_base_objects = 2
rank update_base_objects = 3
rank bind_references = 4

-- The stages rise from `n`, none is empty, and each holds operations of its kind only.
abbrev pub Rises : ℕ → List ChangePlanStage → Type 0
Rises n [] = Unit
Rises n (s ∷ rest) =
    (n ≤ rank s.kind)
    × (is_nil s.ops ≡ false)
    × All (λ op. stage_of op ≡ s.kind) s.ops
    × Rises (rank s.kind + 1) rest

Rises-weaken : (m n : ℕ) (stages : List ChangePlanStage) → m ≤ n → Rises n stages → Rises m stages
Rises-weaken m n [] h r = tt
Rises-weaken m n (s ∷ rest) h r = (let k = r.0 in omega arith, r.1, r.2, r.3)

push_stage-Rises :
    (kind : ChangePlanStageKind) (ops : List ChangeOp) (rest : List ChangePlanStage)
    → InStage kind ops
    → Rises (rank kind + 1) rest
    → Rises (rank kind) (push_stage kind ops rest)
unfolding push_stage
push_stage-Rises kind [] rest h r = Rises-weaken (rank kind) (rank kind + 1) rest (omega arith) r
push_stage-Rises kind (op ∷ ops) rest h r = (omega arith, refl, h, r)

pub stages_of-Rises : (b : Buckets) → IsSorted b → Rises 0 (stages_of b)
unfolding stages_of
stages_of-Rises b h = push_stage-Rises unbind_references b.unbind _ h.0 (
    push_stage-Rises delete_base_objects b.delete_base _ h.1 (
      push_stage-Rises create_base_objects b.create_base _ h.2 (
        push_stage-Rises update_base_objects b.update_base _ h.3
          (push_stage-Rises bind_references b.bind [] h.4 tt))))

-- An order that the objects themselves ask for: a reference is removed before the object that it names,
-- and an object is there before a reference that names it.
abbrev pub uses_vlan : ℕ → PortMode → Bool
uses_vlan v (access vlan_id) = v == vlan_id
uses_vlan v (trunk none allowed) = any (λ a. v == a) allowed
uses_vlan v (trunk (some native) allowed) = v == native || any (λ a. v == a) allowed

unfoldable pub must_precede : ChangeOp → ChangeOp → Bool
must_precede (delete_acl_binding i d a) (delete_acl b) = a == b
must_precede (delete_bgp_neighbor v a) (delete_bgp_process w) = same v w
must_precede (create_acl a) (create_acl_binding b) = a.acl_id == b.acl_id
must_precede (create_acl a) (update_acl_binding x b) = a.acl_id == b.acl_id
must_precede (create_vlan v) (update_interface x i) = uses_vlan v.vlan_id i.mode
must_precede (create_bgp_process p) (create_bgp_neighbor n) = same p.vrf n.vrf
must_precede (create_bgp_process p) (update_bgp_neighbor x n) = same p.vrf n.vrf
must_precede _ _ = false

-- No operation stands behind one that it must precede.
abbrev pub InOrder : List ChangeOp → Type 0
InOrder [] = Unit
InOrder (op ∷ ops) = All (λ later_op. must_precede later_op op ≡ false) ops × InOrder ops

not_before : (a b : ChangeOp) → rank (stage_of b) ≤ rank (stage_of a) → must_precede a b ≡ false
unfolding must_precede stage_of
not_before (delete_acl_binding i d a) (delete_acl b) h = absurd (omega arith)
not_before (delete_bgp_neighbor v a) (delete_bgp_process w) h = absurd (omega arith)
not_before (create_acl a) (create_acl_binding b) h = absurd (omega arith)
not_before (create_acl a) (update_acl_binding x b) h = absurd (omega arith)
not_before (create_vlan v) (update_interface x i) h = absurd (omega arith)
not_before (create_bgp_process p) (create_bgp_neighbor n) h = absurd (omega arith)
not_before (create_bgp_process p) (update_bgp_neighbor x n) h = absurd (omega arith)
not_before _ _ h = refl

not_before-All :
    (op : ChangeOp) (ops : List ChangeOp)
    → All (λ a. rank (stage_of op) ≤ rank (stage_of a)) ops
    → All (λ a. must_precede a op ≡ false) ops
not_before-All op [] h = tt
not_before-All op (a ∷ ops) h = (not_before a op h.0, not_before-All op ops h.1)

rank_bound :
    (m : ℕ) (kind : ChangePlanStageKind) (ops : List ChangeOp)
    → InStage kind ops
    → m ≤ rank kind
    → All (λ a. m ≤ rank (stage_of a)) ops
rank_bound m kind [] h l = tt
rank_bound m kind (op ∷ ops) h l =
    (subst (λ k. m ≤ rank k) (sym h.0) l, rank_bound m kind ops h.1 l)

flatten_bound :
    (m n : ℕ) (stages : List ChangePlanStage)
    → m ≤ n
    → Rises n stages
    → All (λ a. m ≤ rank (stage_of a)) (flatten stages)
flatten_bound m n [] l h = tt
flatten_bound m n (s ∷ rest) l h =
    let k = h.0 in
    All-append (λ a. m ≤ rank (stage_of a)) s.ops (flatten rest)
      (rank_bound m s.kind s.ops h.2 (omega arith))
      (flatten_bound m (rank s.kind + 1) rest (omega arith) h.3)

stage-InOrder :
    (kind : ChangePlanStageKind) (ops after : List ChangeOp)
    → InStage kind ops
    → All (λ a. rank kind ≤ rank (stage_of a)) after
    → InOrder after
    → InOrder (ops ++ after)
stage-InOrder kind [] after h l o = o
stage-InOrder kind (op ∷ ops) after h l o =
    let same_or_later =
      All-append (λ a. rank kind ≤ rank (stage_of a)) ops after
        (rank_bound (rank kind) kind ops h.1 (omega arith)) l in
    (
      not_before-All op (ops ++ after) (
          subst (λ k. All (λ a. rank k ≤ rank (stage_of a)) (ops ++ after)) (sym h.0)
            same_or_later),
      stage-InOrder kind ops after h.1 l o,
    )

pub flatten-InOrder :
    (n : ℕ) (stages : List ChangePlanStage) → Rises n stages → InOrder (flatten stages)
flatten-InOrder n [] h = tt
flatten-InOrder n (s ∷ rest) h =
    stage-InOrder s.kind s.ops (flatten rest) h.2
      (flatten_bound (rank s.kind) (rank s.kind + 1) rest (omega arith) h.3)
      (flatten-InOrder (rank s.kind + 1) rest h.3)

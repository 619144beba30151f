-- ===== src/Tx/Locks.antt =====
-- tx/endpoint_lock.rs and tx/domain_lock.rs: the keys that a transaction locks, and the order in which
-- it does. The table of locks gives each key one lock, so that a lock is told by its key. Waiting with a
-- deadline (`acquire_many_with_policy`) takes all locks or none, and is not modelled.
use aria_underlay.Base.{
  Text, List, [], ◌∷◌, Bool, not, map, trim, is_empty, is_nil, if◌then◌else◌, Ord, text_ord, less,
  equal, greater,
}
use aria_underlay.Base.BTree.{BTreeSet, same, keys, insert_key}
use aria_underlay.Base.Errors.{UnderlayResult, ok, invalid, fail_if, ◌>>=◌, ◌>>◌}
use aria_underlay.Base.Loops.{try_fold}
use aria_underlay.Model.{DeviceId}
pub mod Order
pub mod Progress
pub mod Finish
mod Tests

-- `sort` and `dedup` of a vector.
module _ {ℓ} {K : Type ℓ} ⦃o : Ord K⦄ where
  unfoldable pub insert_sorted : K → List K → List K
  insert_sorted a [] = a ∷ []
  insert_sorted a (b ∷ r) =
      let rest = insert_sorted a r in
      elim (o.cmp a b) [ less ↦ a ∷ b ∷ r | equal ↦ a ∷ b ∷ r | greater ↦ b ∷ rest ]

  unfoldable pub sort : List K → List K
  sort [] = []
  sort (a ∷ r) = insert_sorted a (sort r)

  unfoldable pub dedup_after : K → List K → List K
  dedup_after a [] = []
  dedup_after a (b ∷ r) =
      let dropped = dedup_after a r in
      let kept = b ∷ dedup_after b r in if same a b then dropped else kept

  unfoldable pub dedup : List K → List K
  unfolding dedup_after
  dedup [] = []
  dedup (a ∷ r) = a ∷ dedup_after a r

unfoldable pub ordered_device_ids : List DeviceId → List DeviceId
ordered_device_ids device_ids = dedup (sort device_ids)

unfoldable pub normalize_scope_key : Text → UnderlayResult Text
normalize_scope_key value = do
  fail_if (is_empty (trim value)) (invalid "apply lock scope key must not be empty" [])
  ok (trim value)

-- `collect::<UnderlayResult<BTreeSet<_>>>()`, and the check on the set.
unfoldable pub normalize_scope_keys : List Text → UnderlayResult (List Text)
normalize_scope_keys scope = do
  set ← try_fold (λ s value. normalize_scope_key value >>= λ k. ok (insert_key k s)) [] scope
  fail_if (is_nil set) (invalid "apply lock scope must include at least one key" [])
  ok (keys set)

-- A transaction at the locks: the keys whose locks it holds, and those it still takes, the next first.
pub record Holder {ℓ} (K : Type ℓ) : Type ℓ where
  pub held : List K
  pub wanted : List K

-- `acquire_many`, before its first lock.
abbrev pub acquire_many : List DeviceId → Holder DeviceId
acquire_many device_ids = record { held = []; wanted = ordered_device_ids device_ids }

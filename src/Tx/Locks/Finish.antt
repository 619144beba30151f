-- ===== src/Tx/Locks/Finish.antt =====
-- However the steps of the transactions at the locks interleave, all of them get their locks.
use aria_underlay.Base.{
  ℕ, zero, suc, ◌+◌, ◌≤◌, List, [], ◌∷◌, ◌++◌, map, Ord, ◌≡◌, All, All-append, length, arith, less,
  text_ord,
}
use aria_underlay.Model.{DeviceId}
use aria_underlay.Tx.Locks.{Holder, acquire_many}
use aria_underlay.Tx.Locks.Order.{IsRising, ordered_device_ids-IsRising}
use aria_underlay.Tx.Locks.Progress.{
  ◌⟶◌, take_lock, drop_guards, IsOrdered, IsRising-below, ordered_progress,
}

module _ {ℓ} {K : Type ℓ} ⦃o : Ord K⦄ where
  infix 40 ◌⟶*◌
  pub data ◌⟶*◌ : List (Holder K) → List (Holder K) → Type ℓ where
    done : {ts : List (Holder K)} → ts ⟶* ts
    next : {ts us vs : List (Holder K)} → ts ⟶ us → us ⟶* vs → ts ⟶* vs

  All-split :
      (before : List (Holder K)) (t : Holder K) (after : List (Holder K))
      → All IsOrdered (before ++ t ∷ after)
      → All IsOrdered before × IsOrdered t × All IsOrdered after
  All-split [] t after h = (tt, h.0, h.1)
  All-split (b ∷ before) t after h =
      let (x, y, z) = All-split before t after h.1 in ((h.0, x), y, z)

  tail-IsRising : (k : K) (r : List K) → IsRising (k ∷ r) → IsRising r
  tail-IsRising k [] h = tt
  tail-IsRising k (a ∷ r) h = h.1

  head-IsRising : (k : K) (r : List K) → IsRising (k ∷ r) → All (λ w. o.cmp k w ≡ less) r
  head-IsRising k [] h = tt
  head-IsRising k (a ∷ r) h = IsRising-below k a r h.0 h.1

  drop_head :
      (k : K) (wanted held : List K)
      → All (λ h. All (λ w. o.cmp h w ≡ less) (k ∷ wanted)) held
      → All (λ h. All (λ w. o.cmp h w ≡ less) wanted) held
  drop_head k wanted [] h = tt
  drop_head k wanted (a ∷ held) h = (h.0.1, drop_head k wanted held h.1)

  step-IsOrdered : {ts us : List (Holder K)} → ts ⟶ us → All IsOrdered ts → All IsOrdered us
  step-IsOrdered (take_lock before after held k wanted free) r =
      let (x, y, z) = All-split before _ after r in
      All-append IsOrdered before _ x
        (((head-IsRising k wanted y.1, drop_head k wanted held y.0), tail-IsRising k wanted y.1), z)
  step-IsOrdered (drop_guards before after held) r =
      let (x, y, z) = All-split before _ after r in All-append IsOrdered before _ x z

  -- The locks that are still to be taken, and the transactions that are not over.
  abbrev pub work : List (Holder K) → ℕ
  work [] = 0
  work (t ∷ ts) = suc (length t.wanted) + work ts

  work-append : (xs ys : List (Holder K)) → work (xs ++ ys) ≡ work xs + work ys
  work-append [] ys = omega arith
  work-append (t ∷ xs) ys = omega (arith, work-append xs ys)

  step-work : {ts us : List (Holder K)} → ts ⟶ us → suc (work us) ≤ work ts
  step-work (take_lock before after held k wanted free) = omega (
    arith,
    work-append before (record { held = held; wanted = k ∷ wanted } ∷ after),
    work-append before (record { held = k ∷ held; wanted = wanted } ∷ after),
  )
  step-work (drop_guards before after held) = omega (
    arith,
    work-append before (record { held = held; wanted = [] } ∷ after),
    work-append before after,
  )

  run_ends : (fuel : ℕ) (ts : List (Holder K)) → All IsOrdered ts → work ts ≤ fuel → ts ⟶* []
  run_ends fuel [] r h = done
  run_ends zero (t ∷ ts) r h = absurd (omega arith)
  run_ends (suc fuel) (t ∷ ts) r h =
      let (us, s) = ordered_progress t ts r in
      next s (run_ends fuel us (step-IsOrdered s r) (omega (arith, step-work s)))

  reached-IsOrdered : {ts us : List (Holder K)} → ts ⟶* us → All IsOrdered ts → All IsOrdered us
  reached-IsOrdered done r = r
  reached-IsOrdered (next s q) r = reached-IsOrdered q (step-IsOrdered s r)

-- Transactions that come to the locks with any lists of devices.
abbrev pub arrived : List (List DeviceId) → List (Holder DeviceId)
arrived requests = map acquire_many requests

arrived-IsOrdered : (requests : List (List DeviceId)) → All IsOrdered (arrived requests)
arrived-IsOrdered [] = tt
arrived-IsOrdered (r ∷ requests) =
    ((tt, (ordered_device_ids-IsRising r).0), arrived-IsOrdered requests)

-- From whatever state transactions that came to the locks together have reached, by any interleaving of
-- their steps, there is a way on in which all of them get their locks and drop them.
pub acquire_many_completes :
    (requests : List (List DeviceId)) (ts : List (Holder DeviceId))
    → arrived requests ⟶* ts
    → ts ⟶* []
acquire_many_completes requests ts q =
    run_ends (work ts) ts (reached-IsOrdered q (arrived-IsOrdered requests)) (omega arith)

-- The steps of a run.
unfoldable pub steps_of {ℓ} : {K : Type ℓ} ⦃o : Ord K⦄ {ts us : List (Holder K)} → ts ⟶* us → ℕ
steps_of done = 0
steps_of (next s q) = suc (steps_of q)

-- No interleaving goes on for ever: transactions that come to the locks together make at most one step
-- for each lock that they ask for, and one each to drop them.
pub acquire_many_bounded :
    (requests : List (List DeviceId)) (ts : List (Holder DeviceId)) (q : arrived requests ⟶* ts)
    → steps_of q + work ts ≤ work (arrived requests)
unfolding steps_of
acquire_many_bounded requests ts q = steps_work q
  where
    steps_work : {ts us : List (Holder DeviceId)} (q : ts ⟶* us) → steps_of q + work us ≤ work ts
    steps_work done = omega arith
    steps_work (next s q) = omega (arith, step-work s, steps_work q)

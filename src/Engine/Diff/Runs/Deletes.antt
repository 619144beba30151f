-- ===== src/Engine/Diff/Runs/Deletes.antt =====
-- The loops of `compute_diff` over the deletions.
use aria_underlay.Base.{
  [], ◌∷◌, Option, none, some, Bool, true, false, not, ◌≡◌, refl, ◌∙◌, ap, Ord, if◌then◌else◌,
  Bool-cases, inl, inr, arith,
}
use aria_underlay.Base.BTree.{
  BTreeMap, get, remove, retain, same, get-remove, get-retain, retain-IsSorted, get-Ahead, Ahead,
  IsSorted, Entries, kept,
}
use aria_underlay.Engine.Diff.{ChangeOp, delete_ops}
use aria_underlay.Engine.Diff.Runs.{run, run_cons}

-- The test of a deletion at a key, where one is asked for.
abbrev pub marked {ℓ κ} :
    {K : Type ℓ} {W : Type κ} ⦃o : Ord K⦄ → (K → W → Bool) → BTreeMap K W → K → Bool
marked test deleted k = elim (get k deleted) [ none ↦ false | some w ↦ test k w ]

-- One round of the loop over the deletions.
module _ {ℓ κ} {K : Type ℓ} {W : Type κ} (test : K → W → Bool) (delete : K → W → ChangeOp) where
  delete_ops_hit :
      (k : K) (w : W) (deleted : BTreeMap K W)
      → test k w ≡ true
      → delete_ops test delete ((k, w) ∷ deleted) ≡ delete k w ∷ delete_ops test delete deleted
  unfolding delete_ops
  delete_ops_hit k w deleted e = rw e

  pub delete_ops_miss :
      (k : K) (w : W) (deleted : BTreeMap K W)
      → test k w ≡ false
      → delete_ops test delete ((k, w) ∷ deleted) ≡ delete_ops test delete deleted
  unfolding delete_ops
  delete_ops_miss k w deleted e = rw e

-- After the loop over the deletions each marked key is gone, and all else is as before.
module _ {ℓ κ ι} {K : Type ℓ} {V : Type κ} {W : Type ι} ⦃o : Ord K⦄
    (act : ChangeOp → BTreeMap K V → BTreeMap K V) (test : K → W → Bool)
    (delete : K → W → ChangeOp) where
  abbrev pub Removes : K → W → Type (ℓ ⊔ κ)
  Removes k w = (m : BTreeMap K V) → act (delete k w) m ≡ remove k m

  round_hit :
      (k : K) (w : W) (deleted : BTreeMap K W) (m : BTreeMap K V) (j : K) (x : Option V)
      → Ahead k deleted
      → test k w ≡ true
      → x ≡ (if marked test deleted j then none else get j (remove k m))
      → x ≡ (if marked test ((k, w) ∷ deleted) j then none else get j m)
  unfolding get
  round_hit k w deleted m j x a h e =
      ground (arith, get-remove j k m, o.cmp_equal j k, get-Ahead k deleted a)

  round_miss :
      (k : K) (w : W) (deleted : BTreeMap K W) (m : BTreeMap K V) (j : K) (x : Option V)
      → Ahead k deleted
      → test k w ≡ false
      → x ≡ (if marked test deleted j then none else get j m)
      → x ≡ (if marked test ((k, w) ∷ deleted) j then none else get j m)
  unfolding get
  round_miss k w deleted m j x a h e = ground (arith, o.cmp_equal j k, get-Ahead k deleted a)

  pub get-run_deletes :
      (deleted : BTreeMap K W) (m : BTreeMap K V) (j : K)
      → IsSorted deleted
      → Entries Removes deleted
      → get j (run act (delete_ops test delete deleted) m)
        ≡ (if marked test deleted j then none else get j m)
  unfolding run delete_ops get
  get-run_deletes [] m j s r = refl
  get-run_deletes ((k, w) ∷ deleted) m j s r = elim (Bool-cases (test k w)) [
    | inl e ↦
        rw (delete_ops_hit test delete k w deleted e, run_cons, r.0 m)
          (round_hit k w deleted m j _ s.0 e (get-run_deletes deleted (remove k m) j s.1 r.1))
    | inr e ↦
        rw (delete_ops_miss test delete k w deleted e)
          (round_miss k w deleted m j _ s.0 e (get-run_deletes deleted m j s.1 r.1))
  ]

-- The same where a deletion takes all that is tagged with its key.
module _ {ℓ κ ι ν} {K : Type ℓ} {V : Type κ} {W : Type ι} {T : Type ν} ⦃o : Ord K⦄ ⦃t : Ord T⦄
    (act : ChangeOp → BTreeMap K V → BTreeMap K V) (tag : V → T) (test : T → W → Bool)
    (delete : T → W → ChangeOp) where
  abbrev pub Sweeps : Type (ℓ ⊔ κ ⊔ ι ⊔ ν)
  Sweeps =
      (k : T) (w : W) (m : BTreeMap K V)
      → act (delete k w) m ≡ retain (λ _ v. not (same (tag v) k)) m

  round_sweep :
      (k : T) (w : W) (deleted : BTreeMap T W) (x : Option V) (v : Option V)
      → Ahead k deleted
      → test k w ≡ true
      → x ≡ kept (λ u. not (marked test deleted (tag u))) (kept (λ u. not (same (tag u) k)) v)
      → x ≡ kept (λ u. not (marked test ((k, w) ∷ deleted) (tag u))) v
  unfolding get
  round_sweep k w deleted x none a h e = e
  round_sweep k w deleted x (some u) a h e =
      ground (arith, t.cmp_equal (tag u) k, get-Ahead k deleted a)

  round_unswept :
      (k : T) (w : W) (deleted : BTreeMap T W) (x : Option V) (v : Option V)
      → Ahead k deleted
      → test k w ≡ false
      → x ≡ kept (λ u. not (marked test deleted (tag u))) v
      → x ≡ kept (λ u. not (marked test ((k, w) ∷ deleted) (tag u))) v
  unfolding get
  round_unswept k w deleted x none a h e = e
  round_unswept k w deleted x (some u) a h e =
      ground (arith, t.cmp_equal (tag u) k, get-Ahead k deleted a)

  kept_all : (v : Option V) → v ≡ kept (λ u. true) v
  kept_all none = refl
  kept_all (some u) = refl

  pub get-run_sweeps :
      (deleted : BTreeMap T W) (m : BTreeMap K V) (j : K)
      → IsSorted deleted
      → IsSorted m
      → Sweeps
      → get j (run act (delete_ops test delete deleted) m)
        ≡ kept (λ v. not (marked test deleted (tag v))) (get j m)
  unfolding run delete_ops get
  get-run_sweeps [] m j s sm r = kept_all (get j m)
  get-run_sweeps ((k, w) ∷ deleted) m j s sm r = elim (Bool-cases (test k w)) [
    | inl e ↦
        rw (delete_ops_hit test delete k w deleted e, run_cons, r k w m)
          (round_sweep k w deleted _ (get j m) s.0 e (
            get-run_sweeps deleted _ j s.1 (retain-IsSorted _ m sm) r
            ∙ ap (kept (λ u. not (marked test deleted (tag u)))) (get-retain j _ m sm)))
    | inr e ↦
        rw (delete_ops_miss test delete k w deleted e)
          (round_unswept k w deleted _ (get j m) s.0 e (get-run_sweeps deleted m j s.1 sm r))
  ]

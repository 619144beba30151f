-- ===== src/Engine/Diff/Runs.antt =====
-- What the loops of `compute_diff` do to one map once their operations are carried out. An action is
-- what an operation does to that map.
pub mod Upserts
pub mod Deletes
use aria_underlay.Base.{
  List, [], ◌∷◌, ◌++◌, Option, none, some, Bool, false, arith, ◌≡◌, refl, Ord, All, Bool-cases, inl,
  inr, ite, if_pos, if_neg,
}
use aria_underlay.Base.BTree.{BTreeMap, get, Entries}
use aria_underlay.Engine.Diff.{ChangeOp, upsert_ops, delete_ops}

module _ {ℓ} {M : Type ℓ} (act : ChangeOp → M → M) where
  unfoldable pub run : List ChangeOp → M → M
  run [] m = m
  run (op ∷ ops) m = run ops (act op m)

  pub run_cons :
      (op : ChangeOp) (ops : List ChangeOp) (m : M) → run (op ∷ ops) m ≡ run ops (act op m)
  unfolding run
  run_cons op ops m = refl

  pub run-append : (xs ys : List ChangeOp) (m : M) → run (xs ++ ys) m ≡ run ys (run xs m)
  unfolding run
  run-append [] ys m = refl
  run-append (op ∷ xs) ys m = run-append xs ys (act op m)

  abbrev pub IsIdle : ChangeOp → Type ℓ
  IsIdle op = (m : M) → act op m ≡ m

  pub run_idle : (ops : List ChangeOp) (m : M) → All IsIdle ops → run ops m ≡ m
  unfolding run
  run_idle [] m h = refl
  run_idle (op ∷ ops) m h = rw (h.0 m) (run_idle ops m h.1)

module _ {ℓ κ ι} {K : Type ℓ} {V : Type κ} ⦃o : Ord K⦄ (P : ChangeOp → Type ι) (dec : Discrete V)
    (create : V → ChangeOp) (update : V → V → ChangeOp) (current : BTreeMap K V) where
  abbrev pub WritesAll : K → V → Type (κ ⊔ ι)
  WritesAll k v = P (create v) × ((w : V) → P (update w v))

  pub upsert_ops-All :
      (desired : BTreeMap K V)
      → Entries WritesAll desired
      → All P (upsert_ops dec create update current desired)
  unfolding upsert_ops
  upsert_ops-All [] h = tt
  upsert_ops-All ((k, v) ∷ desired) h = go (get k current) (upsert_ops-All desired h.1)
    where
      go :
          (g : Option V)
          → All P (upsert_ops dec create update current desired)
          → All P (elim g [
            | none ↦ create v ∷ upsert_ops dec create update current desired
            | some w ↦
                ite
                  (dec w v)
                  (upsert_ops dec create update current desired)
                  (update w v ∷ upsert_ops dec create update current desired)
          ])
      go none rest = (h.0.0, rest)
      go (some w) rest = elim (dec w v) [
        | yes e ↦ rw (if_pos _ e) rest
        | no e ↦ rw (if_neg _ e) (h.0.1 w, rest)
      ]

module _ {ℓ κ} {K : Type ℓ} {V : Type κ} ⦃o : Ord K⦄ (dec : Discrete V) (create : V → ChangeOp)
    (update : V → V → ChangeOp) (current : BTreeMap K V) where
  -- Nothing is written where every desired entry is there already.
  pub upsert_ops_settled :
      (desired : BTreeMap K V)
      → Entries (λ k v. get k current ≡ some v) desired
      → upsert_ops dec create update current desired ≡ []
  unfolding upsert_ops
  upsert_ops_settled [] h = refl
  upsert_ops_settled ((k, v) ∷ desired) h =
      rw (h.0, upsert_ops) (rw (upsert_ops_settled desired h.1) (ground arith))

module _ {ℓ κ ι} {K : Type ℓ} {W : Type κ} (P : ChangeOp → Type ι) where
  pub delete_ops-All :
      (test : K → W → Bool) (delete : K → W → ChangeOp) (deleted : BTreeMap K W)
      → ((k : K) (w : W) → P (delete k w))
      → All P (delete_ops test delete deleted)
  unfolding delete_ops
  delete_ops-All test delete [] h = tt
  delete_ops-All test delete ((k, w) ∷ deleted) h = elim (Bool-cases (test k w)) [
    | inl e ↦ rw e (h k w, delete_ops-All test delete deleted h)
    | inr e ↦ rw e (delete_ops-All test delete deleted h)
  ]

module _ {ℓ κ} {K : Type ℓ} {W : Type κ} where
  pub delete_ops_settled :
      (test : K → W → Bool) (delete : K → W → ChangeOp) (deleted : BTreeMap K W)
      → Entries (λ k w. test k w ≡ false) deleted
      → delete_ops test delete deleted ≡ []
  unfolding delete_ops
  delete_ops_settled test delete [] h = refl
  delete_ops_settled test delete ((k, w) ∷ deleted) h =
      rw h.0 (delete_ops_settled test delete deleted h.1)

-- ===== src/Engine/Diff/Runs/Upserts.antt =====
-- The loops of `compute_diff` over the desired entries.
use aria_underlay.Base.{
  [], ◌∷◌, Option, none, some, ◌≡◌, ◌≢◌, refl, ◌∙◌, ap, Ord, or_else, if◌then◌else◌, Option-cases,
  inl, inr, arith,
}
use aria_underlay.Base.BTree.{
  BTreeMap, get, insert, same, get-insert, get-Ahead, Ahead, IsSorted, Entries,
}
use aria_underlay.Engine.Diff.{ChangeOp, upsert_ops}
use aria_underlay.Engine.Diff.Runs.{run, run_cons}

-- One round of the loop over the desired entries.
module _ {ℓ κ} {K : Type ℓ} {V : Type κ} ⦃o : Ord K⦄ (dec : Discrete V) (create : V → ChangeOp)
    (update : V → V → ChangeOp) (current : BTreeMap K V) where
  upsert_ops_missing :
      (k : K) (v : V) (desired : BTreeMap K V)
      → get k current ≡ none
      → upsert_ops dec create update current ((k, v) ∷ desired)
        ≡ create v ∷ upsert_ops dec create update current desired
  unfolding upsert_ops
  upsert_ops_missing k v desired e = rw (e, upsert_ops)

  pub upsert_ops_equal :
      (k : K) (v : V) (desired : BTreeMap K V)
      → get k current ≡ some v
      → upsert_ops dec create update current ((k, v) ∷ desired)
        ≡ upsert_ops dec create update current desired
  unfolding upsert_ops
  upsert_ops_equal k v desired e = rw (e, upsert_ops) (ground arith)

  upsert_ops_changed :
      (k : K) (w v : V) (desired : BTreeMap K V)
      → get k current ≡ some w
      → w ≢ v
      → upsert_ops dec create update current ((k, v) ∷ desired)
        ≡ update w v ∷ upsert_ops dec create update current desired
  unfolding upsert_ops
  upsert_ops_changed k w v desired e n = rw (e, upsert_ops) (ground arith)

module _ {ℓ κ} {K : Type ℓ} {V : Type κ} ⦃o : Ord K⦄
    (act : ChangeOp → BTreeMap K V → BTreeMap K V) where
  -- The operations of an entry put it under its key.
  abbrev pub Puts : (V → ChangeOp) → (V → V → ChangeOp) → K → V → Type (ℓ ⊔ κ)
  Puts create update k v =
      ((m : BTreeMap K V) → act (create v) m ≡ insert k v m)
      × ((w : V) (m : BTreeMap K V) → act (update w v) m ≡ insert k v m)

  abbrev pub Agrees : BTreeMap K V → BTreeMap K V → K → V → Type κ
  Agrees current m k v = get k m ≡ get k current

  Agrees-insert :
      (current m : BTreeMap K V) (k : K) (v : V) (desired : BTreeMap K V)
      → Ahead k desired
      → Entries (Agrees current m) desired
      → Entries (Agrees current (insert k v m)) desired
  Agrees-insert current m k v [] a h = tt
  Agrees-insert current m k v ((j, w) ∷ desired) a h = (
    ground (arith, get-insert j k v m, o.cmp_flip k j),
    Agrees-insert current m k v desired a.1 h.1,
  )

  round_put :
      (k : K) (v : V) (desired m : BTreeMap K V) (j : K) (x : Option V)
      → Ahead k desired
      → x ≡ or_else (get j desired) (get j (insert k v m))
      → x ≡ or_else (if same j k then some v else get j desired) (get j m)
  round_put k v desired m j x a e =
      ground (arith, get-insert j k v m, get-Ahead k desired a, o.cmp_equal j k)

  round_kept :
      (k : K) (v : V) (desired m : BTreeMap K V) (j : K) (x : Option V)
      → Ahead k desired
      → get k m ≡ some v
      → x ≡ or_else (get j desired) (get j m)
      → x ≡ or_else (if same j k then some v else get j desired) (get j m)
  round_kept k v desired m j x a g e = ground (arith, get-Ahead k desired a, o.cmp_equal j k)

  module _ (dec : Discrete V) (create : V → ChangeOp) (update : V → V → ChangeOp)
      (current : BTreeMap K V) where
    -- After the loop each desired entry is there, and all else is as before.
    pub get-run_upserts :
        (desired : BTreeMap K V) (m : BTreeMap K V) (j : K)
        → IsSorted desired
        → Entries (Puts create update) desired
        → Entries (Agrees current m) desired
        → get j (run act (upsert_ops dec create update current desired) m)
          ≡ or_else (get j desired) (get j m)
    unfolding run get upsert_ops
    get-run_upserts [] m j s p a = refl
    get-run_upserts ((k, v) ∷ desired) m j s p a =
        let after =
          get-run_upserts desired (insert k v m) j s.1 p.1
            (Agrees-insert current m k v desired s.0 a.1) in
        let put = round_put k v desired m j _ s.0 after in
        elim (Option-cases (get k current)) [
          | inl e ↦
              rw (upsert_ops_missing dec create update current k v desired e, run_cons, p.0.0 m) put
          | inr (w, e) ↦ elim (dec w v) [
            | yes q ↦ rw (upsert_ops_equal dec create update current k v desired (e ∙ ap some q)) (
                round_kept k v desired m j _ s.0 (a.0 ∙ e ∙ ap some q)
                  (get-run_upserts desired m j s.1 p.1 a.1))
            | no n ↦
                rw
                  (
                    upsert_ops_changed dec create update current k w v desired e n,
                    run_cons,
                    p.0.1 w m,
                  )
                  put
          ]
        ]

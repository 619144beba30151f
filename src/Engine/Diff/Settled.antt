-- ===== src/Engine/Diff/Settled.antt =====
-- When a second pass of the loops of `compute_diff` finds nothing to do. `found` is what the maps hold
-- after the first pass.
use aria_underlay.Base.{
  [], ◌∷◌, Option, none, some, Bool, true, false, ◌≡◌, refl, ◌∙◌, ap, sym, Ord, or_else,
  if◌then◌else◌, Bool-cases, Option-cases, inl, inr, is_some, arith,
}
use aria_underlay.Base.BTree.{
  BTreeMap, get, contains_key, contains_key-get, IsSorted, Entries, Entries-found, Entries-get,
  Entries-map, kept,
}
use aria_underlay.Engine.Diff.Runs.Deletes.{marked}
use aria_underlay.Engine.Diff.Reconcile.{reconciled}

pub kept_all {ℓ} : {V : Type ℓ} (x : Option V) → kept (λ v. true) x ≡ x
kept_all none = refl
kept_all (some v) = refl

-- A key that no deletion names is not marked.
pub marked_absent {ℓ κ} :
    {K : Type ℓ} {W : Type κ} ⦃o : Ord K⦄ (test : K → W → Bool) (deleted : BTreeMap K W) (k : K)
    → contains_key k deleted ≡ false
    → marked test deleted k ≡ false
marked_absent test deleted k e = ground (arith, contains_key-get k deleted)

module _ {ℓ κ ι} {K : Type ℓ} {V : Type κ} {W : Type ι} ⦃o : Ord K⦄ (test : K → W → Bool)
    (deleted : BTreeMap K W) (desired current : BTreeMap K V) (keep : V → Bool)
    (found : K → Option V)
    (spec : (k : K) → found k ≡ kept keep (reconciled test deleted desired current k)) where
  -- An upsert survives where no deletion names it.
  abbrev pub Survives : K → V → Type 0
  Survives k v = (contains_key k deleted ≡ false) × (keep v ≡ true)

  settled_entry :
      (k : K) (v : V)
      → contains_key k deleted ≡ false
      → keep v ≡ true
      → get k desired ≡ some v
      → found k ≡ some v
  settled_entry k v a e g = ground (arith, spec k, marked_absent test deleted k a)

  settled-Entries :
      (m : BTreeMap K V)
      → Entries Survives m
      → Entries (λ k v. get k desired ≡ some v) m
      → Entries (λ k v. found k ≡ some v) m
  settled-Entries [] h g = tt
  settled-Entries ((k, v) ∷ m) h g = (settled_entry k v h.0.0 h.0.1 g.0, settled-Entries m h.1 g.1)

  pub upserts_settled :
      IsSorted desired → Entries Survives desired → Entries (λ k v. found k ≡ some v) desired
  upserts_settled s h = settled-Entries desired h (Entries-found desired s)

  -- A deletion that is asked for leaves nothing that it would hit again.
  module _ (hit : W → Option V → Bool) (hit_none : (w : W) → hit w none ≡ false)
      (tests : (k : K) (w : W) → test k w ≡ hit w (get k current)) where
    unhit_value :
        (w : W) (c : Option V)
        → hit w (kept keep (if hit w c then none else or_else none c)) ≡ false
    unhit_value w none = rw (hit_none w) (hit_none w)
    unhit_value w (some u) = elim (Bool-cases (hit w (some u))) [
      | inl e ↦ rw e (hit_none w)
      | inr e ↦ rw e (elim (Bool-cases (keep u)) [ inl h ↦ rw h e | inr h ↦ rw h (hit_none w) ])
    ]

    reconciled_deleted :
        (k : K) (w : W)
        → get k deleted ≡ some w
        → get k desired ≡ none
        → reconciled test deleted desired current k
          ≡ (if hit w (get k current) then none else or_else none (get k current))
    reconciled_deleted k w g d = ground (arith, tests k w)

    unhit :
        (k : K) (w : W) → get k deleted ≡ some w → get k desired ≡ none → hit w (found k) ≡ false
    unhit k w g d =
        rw (spec k ∙ ap (kept keep) (reconciled_deleted k w g d)) (unhit_value w (get k current))

    -- A key that is to be deleted is not among the upserts that survive.
    absent :
        (k : K) (w : W) → Entries Survives desired → get k deleted ≡ some w → get k desired ≡ none
    absent k w h g = elim (Option-cases (get k desired)) [
      | inl e ↦ e
      | inr (v, e) ↦
          ground (arith, Entries-get Survives k v desired h e, contains_key-get k deleted)
    ]

    unhit-Entries :
        (m : BTreeMap K W)
        → Entries Survives desired
        → Entries (λ k w. get k deleted ≡ some w) m
        → Entries (λ k w. hit w (found k) ≡ false) m
    unhit-Entries [] h g = tt
    unhit-Entries ((k, w) ∷ m) h g = (unhit k w g.0 (absent k w h g.0), unhit-Entries m h g.1)

    pub deletes_settled :
        IsSorted deleted
        → Entries Survives desired
        → Entries (λ k w. hit w (found k) ≡ false) deleted
    deletes_settled s h = unhit-Entries deleted h (Entries-found deleted s)

-- The case of a deletion that only asks whether the key is there.
module _ {ℓ κ ι} {K : Type ℓ} {V : Type κ} {W : Type ι} ⦃o : Ord K⦄ (deleted : BTreeMap K W)
    (desired current after : BTreeMap K V) (keep : V → Bool)
    (spec : (k : K)
      → get k after
        ≡ kept keep (reconciled (λ k _. contains_key k current) deleted desired current k)) where
  pub present_deletes_settled :
      IsSorted deleted
      → Entries (λ k v. (contains_key k deleted ≡ false) × (keep v ≡ true)) desired
      → Entries (λ k w. contains_key k after ≡ false) deleted
  present_deletes_settled s h =
      Entries-map (λ k w e. contains_key-get k after ∙ e) deleted
        (deletes_settled (λ k _. contains_key k current) deleted desired current keep
          (λ k. get k after) spec (λ w x. is_some x) (λ w. refl) (λ k w. contains_key-get k current)
          s h)

-- The case of a map that nothing sweeps.
module _ {ℓ κ ι} {K : Type ℓ} {V : Type κ} {W : Type ι} ⦃o : Ord K⦄ (deleted : BTreeMap K W)
    (desired current after : BTreeMap K V)
    (spec : (k : K)
      → get k after ≡ reconciled (λ k _. contains_key k current) deleted desired current k)
    (survives : Entries (λ k v. contains_key k deleted ≡ false) desired) where
  pub plain_upserts_settled : IsSorted desired → Entries (λ k v. get k after ≡ some v) desired
  plain_upserts_settled s =
      upserts_settled (λ k _. contains_key k current) deleted desired current (λ v. true)
        (λ k. get k after) (λ k. spec k ∙ sym (kept_all _)) s
        (Entries-map (λ k v h. (h, refl)) desired survives)

  pub plain_deletes_settled :
      IsSorted deleted → Entries (λ k w. contains_key k after ≡ false) deleted
  plain_deletes_settled s =
      present_deletes_settled deleted desired current after (λ v. true)
        (λ k. spec k ∙ sym (kept_all _)) s (Entries-map (λ k v h. (h, refl)) desired survives)

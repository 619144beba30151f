-- ===== src/Tx/Locks/Progress.antt =====
-- Transactions that take their locks in ascending order never wait for each other in a circle: in every
-- state that they reach together one of them can go on.
use aria_underlay.Base.{
  List, [], ◌∷◌, ◌++◌, Bool, true, false, not, Ord, ◌≡◌, refl, sym, ap, subst, ◌⊎◌, inl, inr, All,
  any, arith, Bool-cases, List-cases, less,
}
use aria_underlay.Base.BTree.{same}
use aria_underlay.Tx.Locks.{Holder}
use aria_underlay.Tx.Locks.Order.{IsRising}

module _ {ℓ} {K : Type ℓ} ⦃o : Ord K⦄ where
  abbrev pub holds : K → Holder K → Bool
  holds k t = any (same k) t.held

  -- No transaction holds the lock.
  abbrev pub is_free : K → List (Holder K) → Bool
  is_free k ts = not (any (holds k) ts)

  -- `lock_owned().await` returns when the lock is free; the guards are dropped when the transaction is
  -- over, all at once.
  infix 40 ◌⟶◌
  pub data ◌⟶◌ : List (Holder K) → List (Holder K) → Type ℓ where
    take_lock :
        (before after : List (Holder K)) (held : List K) (k : K) (wanted : List K)
        → is_free k (before ++ record { held = held; wanted = k ∷ wanted } ∷ after) ≡ true
        → (before ++ record { held = held; wanted = k ∷ wanted } ∷ after)
          ⟶ (before ++ record { held = k ∷ held; wanted = wanted } ∷ after)
    drop_guards :
        (before after : List (Holder K)) (held : List K)
        → (before ++ record { held = held; wanted = [] } ∷ after) ⟶ (before ++ after)

  -- What is held is below what is wanted, and what is wanted ascends.
  abbrev pub IsOrdered : Holder K → Type 0
  IsOrdered t = All (λ h. All (λ w. o.cmp h w ≡ less) t.wanted) t.held × IsRising t.wanted

  -- The next key of a transaction, if it wants one, is not above a key.
  abbrev is_below : K → Holder K → Bool
  is_below k t = elim t.wanted [ [] ↦ true | w ∷ ws ↦ elim (o.cmp k w) [ less ↦ false | _ ↦ true ] ]

  pub IsRising-below :
      (a b : K) (r : List K)
      → o.cmp a b ≡ less
      → IsRising (b ∷ r)
      → All (λ w. o.cmp a w ≡ less) (b ∷ r)
  IsRising-below a b [] h s = (h, tt)
  IsRising-below a b (c ∷ r) h s = (h, IsRising-below a c r (o.cmp_less_trans a b c h s.0) s.1)

  -- A transaction that waits for a key that is not above another does not hold that other.
  below_free :
      (k w : K) (held wanted : List K)
      → All (λ h. All (λ x. o.cmp h x ≡ less) (w ∷ wanted)) held
      → is_below k (record { held = held; wanted = w ∷ wanted }) ≡ true
      → any (same k) held ≡ false
  below_free k w [] wanted h b = refl
  below_free k w (a ∷ held) wanted h b =
      ground (arith, h.0.0, o.cmp_equal k a, below_free k w held wanted h.1)

  abbrev waiting : List K → K → List K → Holder K
  waiting held k wanted = record { held = held; wanted = k ∷ wanted }

  abbrev finished : List K → Holder K
  finished held = record { held = held; wanted = [] }

  -- A transaction that has all its locks, or all of them wait for one.
  abbrev HasFinished : List (Holder K) → Type ℓ
  HasFinished ts =
      (before : List (Holder K)) × (held : List K) × (after : List (Holder K)) × (ts
        ≡ before ++ finished held ∷ after)

  abbrev wants : Holder K → Bool
  wants t = elim t.wanted [ [] ↦ false | w ∷ ws ↦ true ]

  finished-cases : (ts : List (Holder K)) → HasFinished ts ⊎ All (λ t. wants t ≡ true) ts
  finished-cases [] = inr tt
  finished-cases (t ∷ ts) = elim (List-cases t.wanted) [
    | inl n ↦ inl ([], t.held, ts, ap (λ w. record { held = t.held; wanted = w } ∷ ts) n)
    | inr (w, ws, n) ↦ elim (finished-cases ts) [
      | inl (before, held, after, e) ↦ inl (t ∷ before, held, after, ap (◌∷◌ t) e)
      | inr h ↦ inr (ground (arith, n), h)
    ]
  ]

  -- One that waits for a key which no transaction waits above.
  abbrev HasTop : List (Holder K) → Type ℓ
  HasTop ts =
      (k : K) × (before : List (Holder K)) × (held : List K) × (wanted : List K) × (after : List
        (Holder K))
      × (ts ≡ before ++ waiting held k wanted ∷ after)
      × All (λ t. is_below k t ≡ true) ts

  below_trans :
      (j k : K) (ts : List (Holder K))
      → o.cmp j k ≡ less
      → All (λ t. is_below j t ≡ true) ts
      → All (λ t. is_below k t ≡ true) ts
  below_trans j k [] h b = tt
  below_trans j k (t ∷ ts) h b = (
    elim (List-cases t.wanted) [
      | inl n ↦ ground (arith, n)
      | inr (w, ws, n) ↦ ground (arith, n, b.0, o.cmp_less_trans j k w h)
    ],
    below_trans j k ts h b.1,
  )

  top_alone :
      (t : Holder K) (ts : List (Holder K)) (w : K) (ws : List K)
      → t.wanted ≡ w ∷ ws
      → All (λ u. is_below w u ≡ true) ts
      → HasTop (t ∷ ts)
  top_alone t ts w ws n b = (
    w,
    [],
    t.held,
    ws,
    ts,
    ap (λ x. record { held = t.held; wanted = x } ∷ ts) n,
    (ground (arith, n, o.cmp_equal w w), b),
  )

  top : (t : Holder K) (ts : List (Holder K)) → All (λ t. wants t ≡ true) (t ∷ ts) → HasTop (t ∷ ts)
  top t [] h = elim (List-cases t.wanted) [
    | inl n ↦ ground (arith, n, h.0)
    | inr (w, ws, n) ↦ top_alone t [] w ws n tt
  ]
  top t (u ∷ ts) h =
      let (k, before, held, wanted, after, e, b) = top u ts h.1 in
      elim (List-cases t.wanted) [
        | inl n ↦ ground (arith, n, h.0)
        | inr (w, ws, n) ↦ elim (Bool-cases (is_below k t)) [
          | inl q ↦ (k, t ∷ before, held, wanted, after, ap (◌∷◌ t) e, (q, b))
          | inr q ↦ top_alone t (u ∷ ts) w ws n (below_trans k w (u ∷ ts) (ground (arith, n, q)) b)
        ]
      ]

  -- No waiting transaction holds the key.
  top_free :
      (k : K) (ts : List (Holder K))
      → All IsOrdered ts
      → All (λ t. wants t ≡ true) ts
      → All (λ t. is_below k t ≡ true) ts
      → is_free k ts ≡ true
  top_free k [] r h b = refl
  top_free k (t ∷ ts) r h b = elim (List-cases t.wanted) [
    | inl n ↦ ground (arith, n, h.0)
    | inr (w, ws, n) ↦
        let here : any (same k) t.held ≡ false =
          below_free k w t.held ws
            (subst (λ x. All (λ g. All (λ v. o.cmp g v ≡ less) x) t.held) n r.0.0)
            (subst (λ x. is_below k (record { held = t.held; wanted = x }) ≡ true) n b.0) in
        ground (arith, here, top_free k ts r.1 h.1 b.1)
  ]

  -- As long as there are transactions at the locks, one of them can take its next lock or has all of
  -- its locks and can drop them: there is no deadlock.
  pub ordered_progress :
      (t : Holder K) (ts : List (Holder K))
      → All IsOrdered (t ∷ ts)
      → (us : List (Holder K)) × ((t ∷ ts) ⟶ us)
  ordered_progress t ts r = elim (finished-cases (t ∷ ts)) [
    | inl (before, held, after, e) ↦ (
      before ++ after,
      subst (λ x. x ⟶ (before ++ after)) (sym e) (drop_guards before after held),
    )
    | inr h ↦
        let (k, before, held, wanted, after, e, b) = top t ts h in
        (
          before ++ record { held = k ∷ held; wanted = wanted } ∷ after,
          subst (λ x. x ⟶ (before ++ record { held = k ∷ held; wanted = wanted } ∷ after)) (sym e)
              (take_lock before after held k wanted
                (subst (λ x. is_free k x ≡ true) e (top_free k (t ∷ ts) r h b))),
        )
  ]

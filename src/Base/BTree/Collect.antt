-- ===== src/Base/BTree/Collect.antt =====
-- Maps that are collected from a sequence of pairs.
use aria_underlay.Base.Order.{Ord, less}
use aria_underlay.Base.BTree.Defs.{BTreeMap, insert, extend, collect}
use aria_underlay.Base.BTree.Sorted.{Ahead, IsSorted, insert-IsSorted, Entries, Entries-insert}
use mathlib.Core.List.{List, [], ◌∷◌, ◌++◌, append_assoc, append-nil}
use mathlib.Core.Path.{◌≡◌, refl, sym, ◌∙◌}
use native.Mathlib.Omega.{arith}

module _ {ℓ κ} {K : Type ℓ} {V : Type κ} ⦃o : Ord K⦄ where
  extend-IsSorted : (r : List (K × V)) (m : BTreeMap K V) → IsSorted m → IsSorted (extend r m)
  unfolding extend
  extend-IsSorted [] m s = s
  extend-IsSorted ((k, v) ∷ r) m s = extend-IsSorted r (insert k v m) (insert-IsSorted k v m s)

  -- Whatever is collected ascends by key.
  pub collect-IsSorted : (r : List (K × V)) → IsSorted (collect r)
  unfolding collect
  collect-IsSorted r = extend-IsSorted r [] tt

  Entries-extend {ι} :
      (P : K → V → Type ι) (r : List (K × V)) (m : BTreeMap K V)
      → Entries P r
      → Entries P m
      → Entries P (extend r m)
  unfolding extend
  Entries-extend P [] m h e = e
  Entries-extend P ((k, v) ∷ r) m h e =
      Entries-extend P r (insert k v m) h.1 (Entries-insert P k v m h.0 e)

  pub Entries-collect {ι} :
      (P : K → V → Type ι) (r : List (K × V)) → Entries P r → Entries P (collect r)
  unfolding collect
  Entries-collect P r h = Entries-extend P r [] h tt

  insert_last :
      (k : K) (v : V) (r m : BTreeMap K V)
      → IsSorted (m ++ (k, v) ∷ r)
      → insert k v m ≡ m ++ (k, v) ∷ []
  unfolding insert
  insert_last k v r [] s = refl
  insert_last k v r ((j, w) ∷ m) s =
      ground (arith, Ahead_mid j k v r m s.0, o.cmp_flip j k, insert_last k v r m s.1)
    where
      Ahead_mid :
          (j k : K) (v : V) (r m : BTreeMap K V) → Ahead j (m ++ (k, v) ∷ r) → o.cmp j k ≡ less
      Ahead_mid j k v r [] a = a.0
      Ahead_mid j k v r (e ∷ m) a = Ahead_mid j k v r m a.1

  extend-append : (r m : BTreeMap K V) → IsSorted (m ++ r) → extend r m ≡ m ++ r
  unfolding extend
  extend-append [] m s = sym (append-nil m)
  extend-append ((k, v) ∷ r) m s =
      rw (insert_last k v r m s)
        (extend-append r (m ++ (k, v) ∷ []) (rw append_assoc s) ∙ append_assoc m ((k, v) ∷ []) r)

  -- A map that is collected again is the same map.
  pub collect-eq_of_IsSorted : (m : BTreeMap K V) → IsSorted m → collect m ≡ m
  unfolding collect
  collect-eq_of_IsSorted m s = extend-append m [] s

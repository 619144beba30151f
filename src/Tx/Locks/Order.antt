-- ===== src/Tx/Locks/Order.antt =====
-- The keys that a transaction locks ascend.
use aria_underlay.Base.{
  List, [], ◌∷◌, Bool, ◌||◌, any, inl, inr, Bool-cases, refl, ap, ◌∙◌, Ord, ◌≡◌, ◌≢◌, arith,
  text_ord, less, greater,
}
use aria_underlay.Base.BTree.{same, same_iff}
use aria_underlay.Model.{DeviceId}
use aria_underlay.Tx.Locks.{insert_sorted, sort, dedup, dedup_after, ordered_device_ids}

absorb : (a b : Bool) → (a || b) ≡ (a || (a || b))
absorb a b = ground arith

module _ {ℓ} {K : Type ℓ} ⦃o : Ord K⦄ where
  -- Each key is below the next.
  abbrev pub IsRising : List K → Type 0
  IsRising [] = Unit
  IsRising (a ∷ []) = Unit
  IsRising (a ∷ b ∷ r) = (o.cmp a b ≡ less) × IsRising (b ∷ r)

  -- No key is above the next.
  abbrev IsLevel : List K → Type 0
  IsLevel [] = Unit
  IsLevel (a ∷ []) = Unit
  IsLevel (a ∷ b ∷ r) = (o.cmp a b ≢ greater) × IsLevel (b ∷ r)

  insert_sorted-IsLevel : (a : K) (r : List K) → IsLevel r → IsLevel (insert_sorted a r)
  unfolding insert_sorted
  insert_sorted-IsLevel a [] h = tt
  insert_sorted-IsLevel a (b ∷ []) h = ground (arith, o.cmp_flip a b)
  insert_sorted-IsLevel a (b ∷ c ∷ r) h =
      ground (arith, o.cmp_flip a b, o.cmp_flip a c, insert_sorted-IsLevel a (c ∷ r) h.1)

  sort-IsLevel : (r : List K) → IsLevel (sort r)
  unfolding sort
  sort-IsLevel [] = tt
  sort-IsLevel (a ∷ r) = insert_sorted-IsLevel a (sort r) (sort-IsLevel r)

  dedup_after-IsRising : (a : K) (r : List K) → IsLevel (a ∷ r) → IsRising (a ∷ dedup_after a r)
  unfolding dedup_after
  dedup_after-IsRising a [] h = tt
  dedup_after-IsRising a (b ∷ []) h = ground arith
  dedup_after-IsRising a (b ∷ c ∷ r) h =
      ground
        (arith, dedup_after-IsRising a (c ∷ r), dedup_after-IsRising b (c ∷ r) h.1, o.cmp_equal a b)

  dedup-IsRising : (r : List K) → IsLevel r → IsRising (dedup r)
  unfolding dedup
  dedup-IsRising [] h = tt
  dedup-IsRising (a ∷ r) h = dedup_after-IsRising a r h

  any-insert_sorted :
      (p : K → Bool) (a : K) (r : List K) → any p (insert_sorted a r) ≡ p a || any p r
  unfolding insert_sorted
  any-insert_sorted p a [] = refl
  any-insert_sorted p a (b ∷ r) = ground (arith, any-insert_sorted p a r)

  any-sort : (p : K → Bool) (r : List K) → any p (sort r) ≡ any p r
  unfolding sort
  any-sort p [] = refl
  any-sort p (a ∷ r) = any-insert_sorted p a (sort r) ∙ ap (λ b. p a || b) (any-sort p r)

  any-dedup_after :
      (p : K → Bool) (a : K) (r : List K) → p a || any p (dedup_after a r) ≡ p a || any p r
  unfolding dedup_after
  any-dedup_after p a [] = refl
  any-dedup_after p a (b ∷ r) = elim (Bool-cases (same a b)) [
    | inl e ↦ rw e (
        any-dedup_after p a r
        ∙ absorb (p a) (any p r)
        ∙ ap (λ c. p a || (p c || any p r)) ((same_iff a b).0 e))
    | inr e ↦ rw e (ap (λ c. p a || c) (any-dedup_after p b r))
  ]

  any-dedup : (p : K → Bool) (r : List K) → any p (dedup r) ≡ any p r
  unfolding dedup
  any-dedup p [] = refl
  any-dedup p (a ∷ r) = any-dedup_after p a r

-- A transaction asks for its locks in ascending order, each once, and for those of the devices that it was
-- given and no other.
pub ordered_device_ids-IsRising :
    (ids : List DeviceId)
    → IsRising (ordered_device_ids ids)
      × ((id : DeviceId) → any (same id) (ordered_device_ids ids) ≡ any (same id) ids)
unfolding ordered_device_ids
ordered_device_ids-IsRising ids = (
  dedup-IsRising (sort ids) (sort-IsLevel ids),
  λ id. any-dedup (same id) (sort ids) ∙ any-sort (same id) ids,
)

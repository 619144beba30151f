-- ===== src/Base/Mem.antt =====
-- Membership in filtered lists, in sets collected from lists, and among the values of a map.
use aria_underlay.Base.{
  Bool, true, false, ◌||◌, List, [], ◌∷◌, Memᴰ, ◌≡◌, refl, sym, ap, ◌∙◌, subst, ◌↔◌, ◌⊎◌, inl, inr,
  any, filter, map, All, Bool-cases, arith,
}
use aria_underlay.Base.Order.{Ord}
use aria_underlay.Base.BTree.{
  BTreeMap, BTreeSet, same, contains_key, insert, extend, collect, collect_set, contains,
  as_entries, contains_key-get, get-insert, same_iff, same_refl,
}

module _ {ℓ} {A : Type ℓ} where
  filter_hit : (p : A → Bool) (y : A) (l : List A) → p y ≡ true → filter p (y ∷ l) ≡ y ∷ filter p l
  filter_hit p y l e = rw e

  filter_miss : (p : A → Bool) (y : A) (l : List A) → p y ≡ false → filter p (y ∷ l) ≡ filter p l
  filter_miss p y l e = rw e

  Memᴰ-cons : {x y : A} {l : List A} → Memᴰ x (y ∷ l) → (x ≡ y) ⊎ Memᴰ x l
  Memᴰ-cons (Memᴰ.head e) = inl e
  Memᴰ-cons (Memᴰ.tail m) = inr m

  pub mem_of_filter :
      (p : A → Bool) (x : A) (l : List A) → Memᴰ x (filter p l) → Memᴰ x l × (p x ≡ true)
  mem_of_filter p x [] m = elim m [ ]
  mem_of_filter p x (y ∷ l) m = elim (Bool-cases (p y)) [
    | inl e ↦ elim (Memᴰ-cons (subst (Memᴰ x) (filter_hit p y l e) m)) [
      | inl q ↦ (Memᴰ.head q, ap p q ∙ e)
      | inr t ↦ let (a, b) = mem_of_filter p x l t in (Memᴰ.tail a, b)
    ]
    | inr e ↦
        let (a, b) = mem_of_filter p x l (subst (Memᴰ x) (filter_miss p y l e) m) in
        (Memᴰ.tail a, b)
  ]

  pub mem_filter : (p : A → Bool) (x : A) (l : List A) → Memᴰ x l → p x ≡ true → Memᴰ x (filter p l)
  mem_filter p x [] m e = elim m [ ]
  mem_filter p x (y ∷ l) (Memᴰ.head q) e =
      subst (Memᴰ x) (sym (filter_hit p y l (ap p (sym q) ∙ e))) (Memᴰ.head q)
  mem_filter p x (y ∷ l) (Memᴰ.tail m) e = elim (Bool-cases (p y)) [
    | inl h ↦ subst (Memᴰ x) (sym (filter_hit p y l h)) (Memᴰ.tail (mem_filter p x l m e))
    | inr h ↦ subst (Memᴰ x) (sym (filter_miss p y l h)) (mem_filter p x l m e)
  ]

  pub mem_of_any : (p : A → Bool) (l : List A) → any p l ≡ true → (x : A) × Memᴰ x l × (p x ≡ true)
  mem_of_any p [] h = ground arith
  mem_of_any p (y ∷ l) h = elim (Bool-cases (p y)) [
    | inl e ↦ (y, Memᴰ.head refl, e)
    | inr e ↦
        let (x, m, q) = mem_of_any p l (subst (λ b. (b || any p l) ≡ true) e h) in
        (x, Memᴰ.tail m, q)
  ]

  pub any_mem : (p : A → Bool) (x : A) (l : List A) → Memᴰ x l → p x ≡ true → any p l ≡ true
  any_mem p x [] m e = elim m [ ]
  any_mem p x (y ∷ l) (Memᴰ.head q) e = rw (sym q, e)
  any_mem p x (y ∷ l) (Memᴰ.tail m) e = ground (arith, any_mem p x l m e)

or_false : (b : Bool) → (b || false) ≡ b
or_false b = ground arith

module _ {ℓ κ} {K : Type ℓ} {V : Type κ} ⦃o : Ord K⦄ where
  pub contains_key-insert :
      (j k : K) (v : V) (m : BTreeMap K V)
      → contains_key j (insert k v m) ≡ same j k || contains_key j m
  contains_key-insert j k v m =
      ground (arith, contains_key-get j (insert k v m), contains_key-get j m, get-insert j k v m)

module _ {ℓ} {K : Type ℓ} ⦃o : Ord K⦄ where
  pub contains_key-extend :
      (k : K) (l : List K) (m : BTreeSet K)
      → contains k (extend (as_entries l) m) ≡ any (same k) l || contains k m
  unfolding extend
  contains_key-extend k [] m = refl
  contains_key-extend k (j ∷ l) m =
      ground (arith, contains_key-extend k l (insert j tt m), contains_key-insert k j tt m)

  -- A set collected from a list holds what is in the list.
  pub contains-collect_set : (k : K) (l : List K) → contains k (collect_set l) ≡ any (same k) l
  unfolding collect contains_key
  contains-collect_set k l = contains_key-extend k l [] ∙ or_false (any (same k) l)

  pub contains_iff : (k : K) (l : List K) → (contains k (collect_set l) ≡ true) ↔ Memᴰ k l
  contains_iff k l = (
    λ h.
        let (x, m, q) = mem_of_any (same k) l (sym (contains-collect_set k l) ∙ h) in
        subst (λ y. Memᴰ y l) (sym ((same_iff k x).0 q)) m,
    λ m. contains-collect_set k l ∙ any_mem (same k) k l m (same_refl k),
  )

module _ {ℓ κ ι} {A : Type ℓ} {K : Type κ} {V : Type ι} ⦃o : Ord K⦄ (key : A → K)
    (value : A → V) where
  contains_key-extend-map :
      (k : K) (l : List A) (m : BTreeMap K V) (s : BTreeSet K)
      → contains_key k m ≡ contains k s
      → contains_key k (extend (map (λ a. (key a, value a)) l) m)
        ≡ contains k (extend (as_entries (map key l)) s)
  unfolding extend
  contains_key-extend-map k [] m s h = h
  contains_key-extend-map k (a ∷ l) m s h =
      contains_key-extend-map k l (insert (key a) (value a) m) (insert (key a) tt s) (
        contains_key-insert k (key a) (value a) m
        ∙ ap (◌||◌ (same k (key a))) h
        ∙ sym (contains_key-insert k (key a) tt s))

  -- The keys of a map that is collected from a list.
  pub contains_key-collect-map :
      (k : K) (l : List A)
      → contains_key k (collect (map (λ a. (key a, value a)) l))
        ≡ contains k (collect_set (map key l))
  unfolding collect contains_key
  contains_key-collect-map k l = contains_key-extend-map k l [] [] refl

All-mem {ℓ κ} : {A : Type ℓ} (P : A → Type κ) (x : A) (l : List A) → All P l → Memᴰ x l → P x
All-mem P x [] h m = elim m [ ]
All-mem P x (y ∷ l) h (Memᴰ.head e) = subst P (sym e) h.0
All-mem P x (y ∷ l) h (Memᴰ.tail m) = All-mem P x l h.1 m

-- Of two lists with no key in common, neither holds a key of the other.
pub apart_sym {ℓ} :
    {K : Type ℓ} ⦃o : Ord K⦄ (l m : List K)
    → All (λ x. contains x (collect_set l) ≡ false) m
    → (k : K) → Memᴰ k l
    → contains k (collect_set m) ≡ false
apart_sym l m h k e = elim (Bool-cases (contains k (collect_set m))) [
  | inl c ↦ ground (arith, All-mem _ k m h ((contains_iff k m).0 c), (contains_iff k l).1 e)
  | inr c ↦ c
]

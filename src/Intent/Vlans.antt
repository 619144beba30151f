-- ===== src/Intent/Vlans.antt =====
-- The lists of VLAN identifiers that pass validation.
use aria_underlay.Base.{
  ℕ, Text, List, [], ◌∷◌, Bool, true, false, not, ◌&&◌, all, any, ◌≡◌, refl, arith, ℕ_ord,
}
use aria_underlay.Base.BTree.{BTreeSet, same, contains, contains_key, insert_key}
use aria_underlay.Base.Errors.{UnderlayResult, ok, err}
use aria_underlay.Base.Loops.{try_fold, try_seen}
use aria_underlay.Base.Mem.{contains_key-insert}
use aria_underlay.Intent.Checks.{within, validate_vlan_id, validate_vlans}

-- No identifier stands twice.
unfoldable pub is_distinct : List ℕ → Bool
is_distinct [] = true
is_distinct (x ∷ xs) = not (any (λ y. same y x) xs) && is_distinct xs

abbrev is_unseen : BTreeSet ℕ → List ℕ → Bool
is_unseen seen xs = all (λ y. not (contains y seen)) xs

unseen-insert :
    (x : ℕ) (seen : BTreeSet ℕ) (xs : List ℕ)
    → is_unseen (insert_key x seen) xs ≡ not (any (λ y. same y x) xs) && is_unseen seen xs
unseen-insert x seen [] = refl
unseen-insert x seen (y ∷ xs) =
    ground (arith, contains_key-insert y x tt seen, unseen-insert x seen xs)

-- Whether a check has been passed.
abbrev pub is_ok {ℓ} : {A : Type ℓ} → UnderlayResult A → Bool
is_ok (ok a) = true
is_ok (err e) = false

loop_iff :
    (context : Text) (seen : BTreeSet ℕ) (xs : List ℕ)
    → is_ok (try_fold (validate_vlan_id context) seen xs)
      ≡ all (within 1 4094) xs && (is_distinct xs && is_unseen seen xs)
unfolding try_fold validate_vlan_id is_distinct
loop_iff context seen [] = refl
loop_iff context seen (x ∷ xs) =
    ground (arith, loop_iff context (insert_key x seen) xs, unseen-insert x seen xs)

unseen_empty : (xs : List ℕ) → is_unseen [] xs ≡ true
unfolding contains_key
unseen_empty [] = refl
unseen_empty (x ∷ xs) = unseen_empty xs

-- A list of VLAN identifiers passes exactly when all of them are from 1 to 4094 and none stands twice.
pub validate_vlans_iff :
    (context : Text) (xs : List ℕ)
    → is_ok (validate_vlans xs context) ≡ all (within 1 4094) xs && is_distinct xs
unfolding validate_vlans try_seen
validate_vlans_iff context xs = ground (arith, loop_iff context [] xs, unseen_empty xs)

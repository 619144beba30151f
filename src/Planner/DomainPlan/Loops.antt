-- ===== src/Planner/DomainPlan/Loops.antt =====
-- What a loop of the plan keeps of the states that it changes.
use aria_underlay.Base.{
  String, List, [], ◌∷◌, ◌≡◌, subst, All, Option-cases, inl, inr, arith, text_ord, ℕ_ord,
}
use aria_underlay.Base.BTree.{BTreeMap, get, insert, Entries, Entries-get, Entries-insert}
use aria_underlay.Base.Errors.{ok, >>=-eq-ok}
use aria_underlay.Base.Loops.{try_fold}
use aria_underlay.Model.{DeviceId}
use aria_underlay.Planner.DevicePlan.{DeviceDesiredState}
use aria_underlay.Planner.DomainPlan.{States, edit_state, add_all}

module _ (members : BTreeMap DeviceId DeviceId) (template : String)
    (P : DeviceDesiredState → Type 0) where
  edit_state-Entries :
      (d : DeviceId) (edit : DeviceDesiredState → DeviceDesiredState) (states : States) {t : States}
      → ((s : DeviceDesiredState) → P s → P (edit s))
      → edit_state members template d edit states ≡ ok t
      → Entries (λ e s. P s) states
      → Entries (λ e s. P s) t
  unfolding edit_state
  edit_state-Entries d edit states {t} f h q = elim (Option-cases (get d members)) [
    | inl n ↦ ground arith
    | inr (e, g) ↦ elim (Option-cases (get e states)) [
      | inl n ↦ ground arith
      | inr (s, a) ↦
          let there : insert e (edit s) states ≡ t = ground arith in
          subst (Entries (λ e s. P s)) there (
            Entries-insert (λ e s. P s) e (edit s) states
              (f s (Entries-get (λ e s. P s) e s states q a)) q)
    ]
  ]

  pub add_all-Entries {ℓ κ} :
      {A : Type ℓ} (R : A → Type κ) (device : A → DeviceId)
      (edit : A → DeviceDesiredState → DeviceDesiredState)
      → ((x : A) (s : DeviceDesiredState) → R x → P s → P (edit x s))
      → (l : List A) (states : States) {t : States}
      → add_all members template device edit l states ≡ ok t
      → All R l
      → Entries (λ e s. P s) states
      → Entries (λ e s. P s) t
  unfolding add_all try_fold
  add_all-Entries R device edit f [] states {t} h r q =
      let there : states ≡ t = grind (arith, h) in subst (Entries (λ e s. P s)) there q
  add_all-Entries R device edit f (x ∷ l) states h r q =
      let (u, a, b) = >>=-eq-ok (edit_state members template (device x) (edit x) states) _ h in
      add_all-Entries R device edit f l u b r.1
        (edit_state-Entries (device x) (edit x) states (λ s. f x s r.0) a q)

-- ===== src/Api/Recovery/Settled/Proven.antt =====
-- What the devices must have answered for a transaction to count as committed or as rolled back.
use aria_underlay.Base.{
  Text, List, [], ◌∷◌, Option, none, some, true, ◌&&◌, is_nil, All, if_pos, if_neg, ◌≡◌, refl, sym,
  ap, ◌∙◌, subst, ◌⊎◌, inl, inr, Bool-cases,
}
use aria_underlay.Base.Errors.{UnderlayResult, ok, err, >>=-eq-ok, >>-eq-ok}
use aria_underlay.Model.{DeviceId}
use aria_underlay.Planner.DevicePlan.{DeviceDesiredState}
use aria_underlay.Engine.Diff.{ChangeSet}
use aria_underlay.Tx.Phase.{TxPhase, TxPhase-discrete}
use aria_underlay.Tx.Journal.{TxJournalRecord}
use aria_underlay.Tx.Recovery.{
  RecoveryAction, noop, discard_prepared_changes, adapter_recover, manual_intervention,
}
use aria_underlay.Api.Apply.{AdapterOperationStatus}
use aria_underlay.Api.Coordinator.Env.{AdapterOutcome}
use aria_underlay.Api.Coordinator.Endpoint.{is_committed, is_verified, is_undone}
use aria_underlay.Api.Recovery.Devices.{
  Side, recover_phase_from_adapter_status, recover_with_transport_retry, recover_device,
  prove_phase, prove_by_recover, prove_by_verify, verify_again, prove_by_confirm, confirm_device,
  merge_recovery_phase, Merged, note_device, is_final_confirming, used_confirmed_commit,
  nothing_yet, merge_devices, conclude, phase_or_in_doubt, recover_final_confirming_record,
  recover_devices, recover_record,
}

-- The answers that prove a phase. A device is committed if it confirms the commit, if it is as it was asked
-- to be, or if `recover` says so; it is rolled back if `recover` says that it is, or that there was
-- nothing to take back.
abbrev pub IsProven : TxPhase → Side → Type 0
IsProven TxPhase.committed side =
    ((o : AdapterOutcome) × (side.final_confirm ≡ ok o) × (is_committed o.status ≡ true))
    ⊎ (((d : DeviceDesiredState) × (c : ChangeSet) × (o : AdapterOutcome) × (side.verify d c ≡ ok o)
          × (is_verified o.status ≡ true))
        ⊎ ((o : AdapterOutcome) × (recover_with_transport_retry side ≡ ok o)
            × (is_committed o.status ≡ true)))
IsProven TxPhase.rolled_back side =
    (o : AdapterOutcome) × (recover_with_transport_retry side ≡ ok o) × (is_undone o.status ≡ true)
IsProven _ side = Unit

ok_injective : {A : Type 0} (a b : A) → ok a ≡ ok b → a ≡ b
ok_injective a b h = cc

some_injective : {A : Type 0} (a b : A) → some a ≡ some b → a ≡ b
some_injective a b h = cc

status-Proven :
    (action : RecoveryAction) (side : Side) (o : AdapterOutcome) (status : AdapterOperationStatus)
    → o.status ≡ status
    → recover_with_transport_retry side ≡ ok o
    → IsProven (recover_phase_from_adapter_status action status) side
unfolding recover_phase_from_adapter_status
status-Proven action side o AdapterOperationStatus.rolled_back q h = (o, h, ap is_undone q)
status-Proven adapter_recover side o AdapterOperationStatus.committed q h =
    inr (inr (o, h, ap is_committed q))
status-Proven discard_prepared_changes side o AdapterOperationStatus.no_change q h =
    (o, h, ap is_undone q)
status-Proven _ side o _ q h = tt

recover_device-Proven :
    (action : RecoveryAction) (side : Side) (p : TxPhase)
    → recover_device action side ≡ ok p
    → IsProven p side
unfolding recover_device
recover_device-Proven action side p h =
    let (managed, rest) = >>-eq-ok side.managed _ h in
    let (o, answered, e) = >>=-eq-ok (recover_with_transport_retry side) _ rest in
    subst (λ x. IsProven x side) (ok_injective _ _ e)
      (status-Proven action side o o.status refl answered)

-- The phases that a recovery may come to.
abbrev pub IsOutcome : TxPhase → Type 0
IsOutcome TxPhase.committed = Unit
IsOutcome TxPhase.rolled_back = Unit
IsOutcome TxPhase.in_doubt = Unit
IsOutcome _ = ⊥

status-IsOutcome :
    (action : RecoveryAction) (status : AdapterOperationStatus)
    → IsOutcome (recover_phase_from_adapter_status action status)
unfolding recover_phase_from_adapter_status
status-IsOutcome action AdapterOperationStatus.rolled_back = tt
status-IsOutcome adapter_recover AdapterOperationStatus.committed = tt
status-IsOutcome discard_prepared_changes AdapterOperationStatus.no_change = tt
status-IsOutcome _ _ = tt

recover_device-IsOutcome :
    (action : RecoveryAction) (side : Side) (p : TxPhase)
    → recover_device action side ≡ ok p
    → IsOutcome p
unfolding recover_device
recover_device-IsOutcome action side p h =
    let (managed, rest) = >>-eq-ok side.managed _ h in
    let (o, answered, e) = >>=-eq-ok (recover_with_transport_retry side) _ rest in
    subst IsOutcome (ok_injective _ _ e) (status-IsOutcome action o.status)

module _ (r : TxJournalRecord) (id : DeviceId) (side : Side) (p : TxPhase) where
  -- What is proven, and that it is an outcome.
  abbrev Good : Type 0
  Good = IsProven p side × IsOutcome p

  recovered-Good :
      (confirmed verified : Text) (o : AdapterOutcome) (q : TxPhase)
      → IsProven q side
      → prove_phase r id side confirmed verified o q ≡ ok p
      → Good
  recovered-Good confirmed verified o TxPhase.committed w h =
      subst (λ x. IsProven x side × IsOutcome x) (ok_injective _ _ h) (w, tt)
  recovered-Good confirmed verified o TxPhase.rolled_back w h =
      subst (λ x. IsProven x side × IsOutcome x) (ok_injective _ _ h) (w, tt)
  recovered-Good confirmed verified o _ w h = cc

  prove_by_recover-Good :
      (confirmed verified : Text) (m : UnderlayResult AdapterOutcome)
      → recover_with_transport_retry side ≡ m
      → prove_by_recover r id side confirmed verified m ≡ ok p
      → Good
  unfolding prove_by_recover
  prove_by_recover-Good confirmed verified (err e) a h = cc
  prove_by_recover-Good confirmed verified (ok o) a h =
      recovered-Good confirmed verified o _ (status-Proven adapter_recover side o o.status refl a) h

  recover_again-Good :
      (confirmed verified : Text)
      → prove_by_recover r id side confirmed verified (recover_with_transport_retry side) ≡ ok p
      → Good
  recover_again-Good confirmed verified h =
      prove_by_recover-Good confirmed verified (recover_with_transport_retry side) refl h

  verified-Good :
      (d : DeviceDesiredState) (c : ChangeSet) (confirmed : Text)
      (m : UnderlayResult AdapterOutcome)
      → side.verify d c ≡ m
      → prove_by_verify r id side confirmed m ≡ ok p
      → Good
  unfolding prove_by_verify
  verified-Good d c confirmed (err e) a h = recover_again-Good confirmed _ h
  verified-Good d c confirmed (ok o) a h = elim (Bool-cases (is_verified o.status)) [
    | inl e ↦
        subst (λ x. IsProven x side × IsOutcome x) (ok_injective _ _ (rw e at h))
          (inr (inl (d, c, o, a, e)), tt)
    | inr e ↦ recover_again-Good confirmed _ (rw e at h)
  ]

  verify_again-Good :
      (confirmed : Text) (d : Option DeviceDesiredState) (c : Option ChangeSet)
      → verify_again r id side confirmed d c ≡ ok p
      → Good
  unfolding verify_again
  verify_again-Good confirmed (some d) (some c) h = verified-Good d c confirmed _ refl h
  verify_again-Good confirmed none c h = recover_again-Good confirmed _ h
  verify_again-Good confirmed (some d) none h = recover_again-Good confirmed _ h

  prove_by_confirm-Good :
      (m : UnderlayResult AdapterOutcome)
      → side.final_confirm ≡ m
      → prove_by_confirm r id side m ≡ ok p
      → Good
  unfolding prove_by_confirm
  prove_by_confirm-Good (err e) a h = verify_again-Good _ _ _ h
  prove_by_confirm-Good (ok o) a h = elim (Bool-cases (is_committed o.status)) [
    | inl e ↦
        subst (λ x. IsProven x side × IsOutcome x) (ok_injective _ _ (rw e at h))
          (inl (o, a, e), tt)
    | inr e ↦ verify_again-Good _ _ _ (rw e at h)
  ]

  confirm_device-Good : confirm_device r id side ≡ ok p → Good
  unfolding confirm_device
  confirm_device-Good h =
      let (managed, rest) = >>-eq-ok side.managed _ h in
      let (client, last) = >>-eq-ok side.client _ rest in
      prove_by_confirm-Good side.final_confirm refl last

-- The merge comes to a decided phase only when both sides have.
merge-decided :
    (o : Option TxPhase) (q p : TxPhase)
    → ¬ (p ≡ TxPhase.in_doubt)
    → merge_recovery_phase o q ≡ p
    → (q ≡ p) × ((o ≡ none) ⊎ (o ≡ some p))
unfolding merge_recovery_phase
merge-decided none q p n h = (h, inl refl)
merge-decided (some left) q p n h = elim (TxPhase-discrete left q) [
  | yes e ↦
      let l = sym (if_pos (TxPhase-discrete left q) e left TxPhase.in_doubt) ∙ h in
      (sym e ∙ l, inr (ap some l))
  | no e ↦ absurd (n (sym h ∙ if_neg (TxPhase-discrete left q) e left TxPhase.in_doubt))
]

merge-IsOutcome :
    (o : Option TxPhase) (q : TxPhase)
    → IsOutcome (phase_or_in_doubt o)
    → IsOutcome q
    → IsOutcome (merge_recovery_phase o q)
unfolding merge_recovery_phase
merge-IsOutcome none q h k = k
merge-IsOutcome (some left) q h k = elim (TxPhase-discrete left q) [
  | yes e ↦ subst IsOutcome (sym (if_pos (TxPhase-discrete left q) e left TxPhase.in_doubt)) h
  | no e ↦ subst IsOutcome (sym (if_neg (TxPhase-discrete left q) e left TxPhase.in_doubt)) tt
]

module _ (ask : DeviceId → Side → UnderlayResult TxPhase) where
  note-decided :
      (id : DeviceId) (answer : UnderlayResult TxPhase) (m : Merged) (p : TxPhase)
      → ¬ (p ≡ TxPhase.in_doubt)
      → ((note_device id answer m).merged_phase ≡ none)
        ⊎ ((note_device id answer m).merged_phase ≡ some p)
      → (answer ≡ ok p) × ((m.merged_phase ≡ none) ⊎ (m.merged_phase ≡ some p))
  unfolding note_device
  note-decided id (ok q) m p n (inl h) = cc
  note-decided id (err e) m p n (inl h) = cc
  note-decided id (ok q) m p n (inr h) =
      let (e, o) = merge-decided m.merged_phase q p n (some_injective _ _ h) in (ap ok e, o)
  note-decided id (err e) m p n (inr h) =
      let (q, o) = merge-decided m.merged_phase TxPhase.in_doubt p n (some_injective _ _ h) in
      absurd (n (sym q))

  merge_devices-decided :
      (m : Merged) (ds : List (DeviceId × Side)) (p : TxPhase)
      → ¬ (p ≡ TxPhase.in_doubt)
      → ((merge_devices ask m ds).merged_phase ≡ none)
        ⊎ ((merge_devices ask m ds).merged_phase ≡ some p)
      → All (λ d. ask d.0 d.1 ≡ ok p) ds × ((m.merged_phase ≡ none) ⊎ (m.merged_phase ≡ some p))
  unfolding merge_devices
  merge_devices-decided m [] p n h = (tt, h)
  merge_devices-decided m ((id, side) ∷ ds) p n h =
      let (later, o) = merge_devices-decided (note_device id (ask id side) m) ds p n h in
      let (here, o') = note-decided id (ask id side) m p n o in ((here, later), o')

  module _
      (outcome : (id : DeviceId) (side : Side) (p : TxPhase)
        → ask id side ≡ ok p
        → IsOutcome p) where
    note-IsOutcome :
        (id : DeviceId) (answer : UnderlayResult TxPhase) (m : Merged)
        → ((p : TxPhase) → answer ≡ ok p → IsOutcome p)
        → IsOutcome (phase_or_in_doubt m.merged_phase)
        → IsOutcome (phase_or_in_doubt (note_device id answer m).merged_phase)
    unfolding note_device
    note-IsOutcome id (ok q) m f h = merge-IsOutcome m.merged_phase q h (f q refl)
    note-IsOutcome id (err e) m f h = merge-IsOutcome m.merged_phase TxPhase.in_doubt h tt

    merge_devices-IsOutcome :
        (m : Merged) (ds : List (DeviceId × Side))
        → IsOutcome (phase_or_in_doubt m.merged_phase)
        → IsOutcome (phase_or_in_doubt (merge_devices ask m ds).merged_phase)
    unfolding merge_devices
    merge_devices-IsOutcome m [] h = h
    merge_devices-IsOutcome m ((id, side) ∷ ds) h =
        merge_devices-IsOutcome (note_device id (ask id side) m) ds
          (note-IsOutcome id (ask id side) m (outcome id side) h)

conclude-ok :
    (r : TxJournalRecord) (code prefix : Text) (m : Merged) (p : TxPhase)
    → conclude r code prefix m ≡ ok p
    → phase_or_in_doubt m.merged_phase ≡ p
unfolding conclude
conclude-ok r code prefix m p h = elim (Bool-cases (is_nil m.failures)) [
  | inl e ↦ ok_injective _ _ (rw e at h)
  | inr e ↦ let q = rw e at h in cc
]

decided_phase :
    (o : Option TxPhase) (p : TxPhase)
    → ¬ (p ≡ TxPhase.in_doubt)
    → phase_or_in_doubt o ≡ p
    → (o ≡ none) ⊎ (o ≡ some p)
decided_phase none p n h = inl refl
decided_phase (some q) p n h = inr (ap some h)

module _ (r : TxJournalRecord) (p : TxPhase) where
  All-Proven :
      (ask : DeviceId → Side → UnderlayResult TxPhase) (ds : List (DeviceId × Side))
      → ((id : DeviceId) (side : Side) → ask id side ≡ ok p → IsProven p side)
      → All (λ d. ask d.0 d.1 ≡ ok p) ds
      → All (λ d. IsProven p d.1) ds
  All-Proven ask [] f h = tt
  All-Proven ask ((id, side) ∷ ds) f h = (f id side h.0, All-Proven ask ds f h.1)

  concluded-Proven :
      (ask : DeviceId → Side → UnderlayResult TxPhase) (ds : List (DeviceId × Side))
      (code prefix : Text)
      → ((id : DeviceId) (side : Side) → ask id side ≡ ok p → IsProven p side)
      → ¬ (p ≡ TxPhase.in_doubt)
      → conclude r code prefix (merge_devices ask nothing_yet ds) ≡ ok p
      → All (λ d. IsProven p d.1) ds
  concluded-Proven ask ds code prefix f n h =
      All-Proven ask ds f
        (merge_devices-decided ask nothing_yet ds p n
          (decided_phase _ p n (conclude-ok r code prefix _ p h))).0

  concluded-IsOutcome :
      (ask : DeviceId → Side → UnderlayResult TxPhase) (ds : List (DeviceId × Side))
      (code prefix : Text)
      → ((id : DeviceId) (side : Side) (q : TxPhase) → ask id side ≡ ok q → IsOutcome q)
      → conclude r code prefix (merge_devices ask nothing_yet ds) ≡ ok p
      → IsOutcome p
  concluded-IsOutcome ask ds code prefix f h =
      subst IsOutcome (conclude-ok r code prefix _ p h)
        (merge_devices-IsOutcome ask f nothing_yet ds tt)

  confirmed-Proven :
      (faced : List (DeviceId × Side))
      → ¬ (p ≡ TxPhase.in_doubt)
      → recover_final_confirming_record r faced ≡ ok p
      → All (λ d. IsProven p d.1) faced × IsOutcome p
  unfolding recover_final_confirming_record
  confirmed-Proven [] n h = absurd (n (sym (ok_injective _ _ h)))
  confirmed-Proven (d ∷ ds) n h = (
    concluded-Proven (confirm_device r) (d ∷ ds) _ _
        (λ id side e. (confirm_device-Good r id side p e).0) n h,
    concluded-IsOutcome (confirm_device r) (d ∷ ds) _ _
        (λ id side q e. (confirm_device-Good r id side q e).1) h,
  )

  asked-Proven :
      (action : RecoveryAction) (faced : List (DeviceId × Side))
      → ¬ (p ≡ TxPhase.in_doubt)
      → recover_devices r action faced ≡ ok p
      → All (λ d. IsProven p d.1) faced × IsOutcome p
  unfolding recover_devices
  asked-Proven discard_prepared_changes [] n h = (tt, subst IsOutcome (ok_injective _ _ h) tt)
  asked-Proven noop [] n h = (tt, subst IsOutcome (ok_injective _ _ h) tt)
  asked-Proven adapter_recover [] n h = (tt, subst IsOutcome (ok_injective _ _ h) tt)
  asked-Proven manual_intervention [] n h = (tt, subst IsOutcome (ok_injective _ _ h) tt)
  asked-Proven action (d ∷ ds) n h = (
    concluded-Proven (λ id. recover_device action) (d ∷ ds) _ _
        (λ id side. recover_device-Proven action side p) n h,
    concluded-IsOutcome (λ id. recover_device action) (d ∷ ds) _ _
        (λ id side. recover_device-IsOutcome action side) h,
  )

  pub recover_record-Proven :
      (faced : List (DeviceId × Side)) (action : RecoveryAction)
      → ¬ (p ≡ TxPhase.in_doubt)
      → recover_record r faced action ≡ ok p
      → All (λ d. IsProven p d.1) faced × IsOutcome p
  unfolding recover_record
  recover_record-Proven faced action n h =
      elim (Bool-cases (is_final_confirming r.phase && used_confirmed_commit r.strategy)) [
        | inl e ↦ confirmed-Proven faced n (rw e at h)
        | inr e ↦ asked-Proven action faced n (rw e at h)
      ]

-- ===== src/Tx/Journal/Life.antt =====
-- A record of the journal over the life of its transaction: any sequence of the changes that the
-- coordinators make to it, the refused ones included.
use aria_underlay.Base.{
  ℕ, Text, List, [], ◌∷◌, ◌++◌, Option, none, some, ◌≡◌, refl, ◌⊎◌, inl, inr, sym, subst, arith,
}
use aria_underlay.Base.Errors.{UnderlayError, ok, err, Result-cases}
use aria_underlay.Model.{DeviceId}
use aria_underlay.Planner.DevicePlan.{DeviceDesiredState}
use aria_underlay.Engine.Diff.{ChangeSet}
use aria_underlay.Tx.Phase.{TxPhase, validate_transition}
use aria_underlay.Tx.Phase.Paths.{follow, follow_cons}
use aria_underlay.Tx.Strategy.{TransactionStrategy}
use aria_underlay.Tx.Journal.{
  TxContext, TxJournalErrorEvent, TxJournalRecord, started, with_phase, transition_phase,
  with_strategy, with_desired_states, with_change_sets, with_error, with_manual_resolution,
}

pub data Change : Type 0 where
  to_phase : TxPhase → Change
  set_strategy : TransactionStrategy → Change
  set_desired_states : List DeviceDesiredState → Change
  set_change_sets : List ChangeSet → Change
  note_error : (code message : Text) → Change
  resolve_by_hand : (operator reason request_id trace_id : Text) → Change

-- One change, at a time.
unfoldable pub change : Change → ℕ → TxJournalRecord → TxJournalRecord
change (to_phase p) now r = (transition_phase p now r).0
change (set_strategy s) now r = with_strategy s now r
change (set_desired_states ds) now r = with_desired_states ds now r
change (set_change_sets cs) now r = with_change_sets cs now r
change (note_error code message) now r = with_error code message now r
change (resolve_by_hand operator reason request_id trace_id) now r =
    with_manual_resolution operator reason request_id trace_id now r

unfoldable pub changes : List (Change × ℕ) → TxJournalRecord → TxJournalRecord
changes [] r = r
changes ((c, now) ∷ cs) r = changes cs (change c now r)

-- The last event of a history, with what stood in the record before it.
abbrev pub last_code : List TxJournalErrorEvent → Option Text
last_code [] = none
last_code (e ∷ []) = some e.code
last_code (e ∷ f ∷ es) = last_code (f ∷ es)

abbrev pub last_message : List TxJournalErrorEvent → Option Text
last_message [] = none
last_message (e ∷ []) = some e.message
last_message (e ∷ f ∷ es) = last_message (f ∷ es)

-- What holds of a record through its life: whose it is, that its phase is one that the moves lead to,
-- and that the error it shows is the last of its history.
pub record IsAccountable (context : TxContext) (ids : List DeviceId) (now : ℕ) (r : TxJournalRecord)
    : Type 0 where
  pub tx_id : r.tx_id ≡ context.tx_id
  pub request_id : r.request_id ≡ context.request_id
  pub trace_id : r.trace_id ≡ context.trace_id
  pub devices : r.devices ≡ ids
  pub created : r.created_at_unix_secs ≡ now
  pub way : (ps : List TxPhase) × (follow TxPhase.started ps ≡ ok r.phase)
  pub code : r.error_code ≡ last_code r.error_history
  pub message : r.error_message ≡ last_message r.error_history

follow_snoc :
    (p : TxPhase) (ps : List TxPhase) (q r : TxPhase)
    → follow p ps ≡ ok q
    → validate_transition q r ≡ ok tt
    → follow p (ps ++ r ∷ []) ≡ ok r
unfolding follow
follow_snoc p [] q r h v = grind (arith, h, v)
follow_snoc p (x ∷ ps) q r h v =
    let (a, b) = follow_cons p x ps h in rw a (follow_snoc x ps q r b v)

last_code_snoc :
    (es : List TxJournalErrorEvent) (e : TxJournalErrorEvent)
    → last_code (es ++ e ∷ []) ≡ some e.code
last_code_snoc [] e = refl
last_code_snoc (x ∷ []) e = refl
last_code_snoc (x ∷ y ∷ es) e = last_code_snoc (y ∷ es) e

last_message_snoc :
    (es : List TxJournalErrorEvent) (e : TxJournalErrorEvent)
    → last_message (es ++ e ∷ []) ≡ some e.message
last_message_snoc [] e = refl
last_message_snoc (x ∷ []) e = refl
last_message_snoc (x ∷ y ∷ es) e = last_message_snoc (y ∷ es) e

-- A refused move leaves the record as it was, and an accepted one changes its phase and its time only.
pub transition_phase-cases :
    (p : TxPhase) (now : ℕ) (r : TxJournalRecord)
    → ((e : UnderlayError) × (validate_transition r.phase p ≡ err e)
        × (transition_phase p now r ≡ (r, err e)))
      ⊎ ((validate_transition r.phase p ≡ ok tt)
          × (transition_phase p now r ≡ (with_phase p now r, ok tt)))
unfolding transition_phase with_phase
transition_phase-cases p now r = elim (Result-cases (validate_transition r.phase p)) [
  | inl h ↦ inl (h.0, h.1, rw (transition_phase, h.1))
  | inr h ↦ inr (h.1, rw (transition_phase, h.1, with_phase))
]

module _ (context : TxContext) (ids : List DeviceId) (born : ℕ) where
  started-IsAccountable : IsAccountable context ids born (started context ids born)
  unfolding started follow
  started-IsAccountable = record {
    tx_id = refl;
    request_id = refl;
    trace_id = refl;
    devices = refl;
    created = refl;
    way = ([], refl);
    code = refl;
    message = refl;
  }

  with_phase-IsAccountable :
      (p : TxPhase) (now : ℕ) (r : TxJournalRecord)
      → validate_transition r.phase p ≡ ok tt
      → IsAccountable context ids born r
      → IsAccountable context ids born (with_phase p now r)
  unfolding with_phase
  with_phase-IsAccountable p now r v a = record {
    tx_id = a.tx_id;
    request_id = a.request_id;
    trace_id = a.trace_id;
    devices = a.devices;
    created = a.created;
    way = (a.way.0 ++ p ∷ [], follow_snoc TxPhase.started a.way.0 r.phase p a.way.1 v);
    code = a.code;
    message = a.message;
  }

  change-IsAccountable :
      (c : Change) (now : ℕ) (r : TxJournalRecord)
      → IsAccountable context ids born r
      → IsAccountable context ids born (change c now r)
  unfolding change with_strategy with_desired_states with_change_sets with_error
      with_manual_resolution
  change-IsAccountable (to_phase p) now r a = elim (transition_phase-cases p now r) [
    | inl h ↦ subst (λ x. IsAccountable context ids born x.0) (sym h.2) a
    | inr h ↦
        subst (λ x. IsAccountable context ids born x.0) (sym h.1)
          (with_phase-IsAccountable p now r h.0 a)
  ]
  change-IsAccountable (set_strategy s) now r a = record {
    tx_id = a.tx_id;
    request_id = a.request_id;
    trace_id = a.trace_id;
    devices = a.devices;
    created = a.created;
    way = a.way;
    code = a.code;
    message = a.message;
  }
  change-IsAccountable (set_desired_states ds) now r a = record {
    tx_id = a.tx_id;
    request_id = a.request_id;
    trace_id = a.trace_id;
    devices = a.devices;
    created = a.created;
    way = a.way;
    code = a.code;
    message = a.message;
  }
  change-IsAccountable (set_change_sets cs) now r a = record {
    tx_id = a.tx_id;
    request_id = a.request_id;
    trace_id = a.trace_id;
    devices = a.devices;
    created = a.created;
    way = a.way;
    code = a.code;
    message = a.message;
  }
  change-IsAccountable (note_error code message) now r a = record {
    tx_id = a.tx_id;
    request_id = a.request_id;
    trace_id = a.trace_id;
    devices = a.devices;
    created = a.created;
    way = a.way;
    code = sym (last_code_snoc r.error_history _);
    message = sym (last_message_snoc r.error_history _);
  }
  change-IsAccountable (resolve_by_hand operator reason request_id trace_id) now r a = record {
    tx_id = a.tx_id;
    request_id = a.request_id;
    trace_id = a.trace_id;
    devices = a.devices;
    created = a.created;
    way = a.way;
    code = a.code;
    message = a.message;
  }

  changes_from-IsAccountable :
      (cs : List (Change × ℕ)) (r : TxJournalRecord)
      → IsAccountable context ids born r
      → IsAccountable context ids born (changes cs r)
  unfolding changes
  changes_from-IsAccountable [] r a = a
  changes_from-IsAccountable ((c, now) ∷ cs) r a =
      changes_from-IsAccountable cs (change c now r) (change-IsAccountable c now r a)

  -- Whatever changes are made to a record that was started for a transaction, refused moves included,
  -- it keeps its identifiers, its devices and its time of creation, its phase is one that accepted
  -- moves lead to, and the error it shows is the last of its history.
  pub changes-IsAccountable :
      (cs : List (Change × ℕ))
      → IsAccountable context ids born (changes cs (started context ids born))
  changes-IsAccountable cs = changes_from-IsAccountable cs _ started-IsAccountable

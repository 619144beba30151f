-- ===== src/Alerts/Delivered.antt =====
-- What a run of the delivery leaves for the next one.
use aria_underlay.Base.{
  Text, List, [], ◌∷◌, ◌++◌, Option, none, some, Bool, true, not, filter, map, ◌||◌, length, ◌≡◌,
  refl, sym, ap, ◌∙◌, inl, inr, Bool-cases, text_ord, All, any, arith, subst, if◌then◌else◌,
}
use aria_underlay.Base.BTree.{BTreeSet, contains, extend, as_entries, same, same_refl}
use aria_underlay.Base.Mem.{contains_key-extend}
use aria_underlay.Base.Errors.{UnderlayError, UnderlayResult, ok, err}
use aria_underlay.Alerts.Delivery.{
  OperationSummary, OperationAlert, Outbox, OperationAlertDeliveryReport, dedupe_key, new_alerts,
  count_delivered, keys_of, report_of, record_delivered, deliver, send, run_once,
  list_attention_required, from_summary,
}

-- Every summary has its key in the checkpoint.
abbrev pub AllKnown : BTreeSet Text → List OperationSummary → Type 0
AllKnown keys l = All (λ s. contains (dedupe_key s) keys ≡ true) l

extended : BTreeSet Text → List OperationAlert → BTreeSet Text
extended keys alerts = extend (as_entries (keys_of alerts)) keys

append-nil : (l : List OperationAlert) → l ++ [] ≡ l
append-nil [] = refl
append-nil (a ∷ l) = ap (λ r. a ∷ r) (append-nil l)

or_true : (b : Bool) → (b || true) ≡ true
or_true b = ground arith

-- The keys that are recorded cover what has been scanned.
covered :
    (keys : BTreeSet Text) (seen : List Text) (l : List OperationSummary)
    → ((s : Text) → any (same s) (keys_of (new_alerts keys l)) ≡ true → any (same s) seen ≡ true)
    → All (λ s. any (same (dedupe_key s)) seen || contains (dedupe_key s) keys ≡ true) l
unfolding new_alerts
covered keys seen [] h = tt
covered keys seen (s ∷ l) h = elim (Bool-cases (contains (dedupe_key s) keys)) [
  | inl e ↦
      (rw e (or_true (any (same (dedupe_key s)) seen)), covered keys seen l (λ k p. h k (rw e p)))
  | inr e ↦ (
    ap (λ b. b || contains (dedupe_key s) keys)
        (h (dedupe_key s) (rw (e, same_refl (dedupe_key s)) refl)),
    covered keys seen l (λ k p.
        h k (rw e (ap (λ b. same k (dedupe_key s) || b) p ∙ or_true (same k (dedupe_key s))))),
  )
]

known-new_alerts :
    (keys : BTreeSet Text) (l : List OperationSummary) → AllKnown keys l → new_alerts keys l ≡ []
unfolding new_alerts
known-new_alerts keys [] h = refl
known-new_alerts keys (s ∷ l) (e, h) = rw (e, known-new_alerts keys l h) refl

known-count_delivered :
    (keys : BTreeSet Text) (l : List OperationSummary)
    → AllKnown keys l
    → count_delivered keys l ≡ length l
unfolding count_delivered
known-count_delivered keys [] h = refl
known-count_delivered keys (s ∷ l) (e, h) = rw (e, known-count_delivered keys l h) (omega arith)

-- The keys after a run are those of before with those of the new alerts.
covered-AllKnown :
    (keys : BTreeSet Text) (seen : List Text) (l : List OperationSummary)
    → All (λ s. any (same (dedupe_key s)) seen || contains (dedupe_key s) keys ≡ true) l
    → AllKnown (extend (as_entries seen) keys) l
covered-AllKnown keys seen [] h = tt
covered-AllKnown keys seen (s ∷ l) (e, h) =
    (contains_key-extend (dedupe_key s) seen keys ∙ e, covered-AllKnown keys seen l h)

module _ (deliver_error : List OperationAlert → Option UnderlayError)
    (record_error : List Text → Option UnderlayError) where
  recorded_keys :
      (e : Option UnderlayError) (alerts : List OperationAlert)
      (report r : OperationAlertDeliveryReport) (o t : Outbox)
      → record_delivered deliver_error record_error e alerts report o ≡ (t, ok r)
      → extended o.delivered_keys alerts ≡ t.delivered_keys
  unfolding extended
  recorded_keys (some e) alerts report r o t h = cc
  recorded_keys none alerts report r o t h = ap (λ x. x.0.delivered_keys) h

  delivered_keys_after :
      (e : Option UnderlayError) (alerts : List OperationAlert)
      (report r : OperationAlertDeliveryReport) (o t : Outbox)
      → deliver deliver_error record_error e alerts report o ≡ (t, ok r)
      → extended o.delivered_keys alerts ≡ t.delivered_keys
  delivered_keys_after (some e) alerts report r o t h = cc
  delivered_keys_after none alerts report r o t h =
      recorded_keys (record_error (keys_of alerts)) alerts report r
        (record o { delivered = o.delivered ++ alerts }) t h

  sent_keys :
      (alerts : List OperationAlert) (report r : OperationAlertDeliveryReport) (o t : Outbox)
      → send deliver_error record_error alerts report o ≡ (t, ok r)
      → extended o.delivered_keys alerts ≡ t.delivered_keys
  unfolding extend extended
  sent_keys [] report r o t h = ap (λ x. x.0.delivered_keys) h
  sent_keys (a ∷ l) report r o t h =
      delivered_keys_after (deliver_error (a ∷ l)) (a ∷ l) report r o t h

  recorded_alerts :
      (e : Option UnderlayError) (alerts : List OperationAlert)
      (report r : OperationAlertDeliveryReport) (o t : Outbox)
      → record_delivered deliver_error record_error e alerts report o ≡ (t, ok r)
      → o.delivered ≡ t.delivered
  recorded_alerts (some e) alerts report r o t h = cc
  recorded_alerts none alerts report r o t h = ap (λ x. x.0.delivered) h

  delivered_after :
      (e : Option UnderlayError) (alerts : List OperationAlert)
      (report r : OperationAlertDeliveryReport) (o t : Outbox)
      → deliver deliver_error record_error e alerts report o ≡ (t, ok r)
      → o.delivered ++ alerts ≡ t.delivered
  delivered_after (some e) alerts report r o t h = cc
  delivered_after none alerts report r o t h =
      recorded_alerts (record_error (keys_of alerts)) alerts report r
        (record o { delivered = o.delivered ++ alerts }) t h

  sent_alerts :
      (alerts : List OperationAlert) (report r : OperationAlertDeliveryReport) (o t : Outbox)
      → send deliver_error record_error alerts report o ≡ (t, ok r)
      → o.delivered ++ alerts ≡ t.delivered
  sent_alerts [] report r o t h = append-nil o.delivered ∙ ap (λ x. x.0.delivered) h
  sent_alerts (a ∷ l) report r o t h =
      delivered_after (deliver_error (a ∷ l)) (a ∷ l) report r o t h

  run_once_sends :
      (summaries : List OperationSummary) (keys_error : Option UnderlayError) (o t : Outbox)
      (r : OperationAlertDeliveryReport)
      → run_once deliver_error record_error (ok summaries) keys_error o ≡ (t, ok r)
      → o.delivered ++ new_alerts o.delivered_keys (list_attention_required summaries) ≡ t.delivered
  unfolding run_once
  run_once_sends summaries (some e) o t r h = cc
  run_once_sends summaries none o t r h =
      let wanted = list_attention_required summaries in
      sent_alerts (new_alerts o.delivered_keys wanted) (report_of o.delivered_keys wanted) r o t h

  run_once-AllKnown :
      (summaries : List OperationSummary) (keys_error : Option UnderlayError) (o t : Outbox)
      (r : OperationAlertDeliveryReport)
      → run_once deliver_error record_error (ok summaries) keys_error o ≡ (t, ok r)
      → AllKnown t.delivered_keys (list_attention_required summaries)
  unfolding run_once extended
  run_once-AllKnown summaries (some e) o t r h = cc
  run_once-AllKnown summaries none o t r h =
      let wanted = list_attention_required summaries in
      let alerts = new_alerts o.delivered_keys wanted in
      subst (λ k. AllKnown k wanted) (sent_keys alerts (report_of o.delivered_keys wanted) r o t h)
        (covered-AllKnown o.delivered_keys (keys_of alerts) wanted
          (covered o.delivered_keys (keys_of alerts) wanted (λ k p. p)))

-- What a run reports that has nothing to deliver, if the checkpoint can be read.
abbrev pub quiet_answer :
    List OperationSummary → Option UnderlayError → UnderlayResult OperationAlertDeliveryReport
quiet_answer wanted (some e) = err e
quiet_answer wanted none = ok (record {
  scanned_attention_required = length wanted;
  already_delivered = length wanted;
  newly_delivered = 0;
})

quiet_run :
    (deliver_error : List OperationAlert → Option UnderlayError)
    (record_error : List Text → Option UnderlayError) (summaries : List OperationSummary)
    (keys_error : Option UnderlayError) (t : Outbox)
    → AllKnown t.delivered_keys (list_attention_required summaries)
    → run_once deliver_error record_error (ok summaries) keys_error t
      ≡ (t, quiet_answer (list_attention_required summaries) keys_error)
unfolding run_once
quiet_run deliver_error record_error summaries (some e) t known = refl
quiet_run deliver_error record_error summaries none t known =
    let wanted = list_attention_required summaries in
    rw
      (
        known-new_alerts t.delivered_keys wanted known,
        known-count_delivered t.delivered_keys wanted known,
      )
      refl

-- The summaries that require attention.
abbrev pub attended : List OperationSummary → List OperationSummary
attended l = filter (λ s. s.attention_required) l

attending : (l : List OperationSummary) → list_attention_required l ≡ attended l
unfolding list_attention_required
attending [] = refl
attending (s ∷ l) = ap (λ r. if s.attention_required then s ∷ r else r) (attending l)

-- What a run has to deliver: the alerts of the summaries that the checkpoint does not have.
abbrev pub outstanding : BTreeSet Text → List OperationSummary → List OperationAlert
outstanding keys l = map from_summary (filter (λ s. not (contains (dedupe_key s) keys)) l)

outstanding-new_alerts :
    (keys : BTreeSet Text) (l : List OperationSummary) → new_alerts keys l ≡ outstanding keys l
unfolding new_alerts
outstanding-new_alerts keys [] = refl
outstanding-new_alerts keys (s ∷ l) = elim (Bool-cases (contains (dedupe_key s) keys)) [
  | inl e ↦ rw e (outstanding-new_alerts keys l)
  | inr e ↦ rw e (ap (λ r. from_summary s ∷ r) (outstanding-new_alerts keys l))
]

-- A run of the delivery that succeeds has given the sink the alert of every summary that requires attention
-- and whose key the checkpoint did not have, and nothing else; and it leaves nothing to be delivered, as the
-- checkpoint then has all the keys. A further run on the same summaries changes nothing, whatever the sink
-- and the checkpoint answer to it: it fails with the error of reading the checkpoint, if there is one, and
-- otherwise succeeds and reports each of the summaries as delivered already.
pub run_once-delivered :
    (deliver_error later_deliver_error : List OperationAlert → Option UnderlayError)
    (record_error later_record_error : List Text → Option UnderlayError)
    (keys_error later_keys_error : Option UnderlayError) (summaries : List OperationSummary)
    (o t : Outbox) (r : OperationAlertDeliveryReport)
    → run_once deliver_error record_error (ok summaries) keys_error o ≡ (t, ok r)
    → (t.delivered ≡ o.delivered ++ outstanding o.delivered_keys (attended summaries))
      × AllKnown t.delivered_keys (attended summaries)
      × (run_once later_deliver_error later_record_error (ok summaries) later_keys_error t
          ≡ (t, quiet_answer (attended summaries) later_keys_error))
run_once-delivered deliver_error later_deliver_error record_error later_record_error keys_error
      later_keys_error summaries o t r h =
    let known = run_once-AllKnown deliver_error record_error summaries keys_error o t r h in
    let sent = run_once_sends deliver_error record_error summaries keys_error o t r h in
    let wanted = attending summaries in
    (
      sym sent
          ∙ ap (λ l. o.delivered ++ l)
              (outstanding-new_alerts o.delivered_keys (list_attention_required summaries)
                ∙ ap (outstanding o.delivered_keys) wanted),
      subst (AllKnown t.delivered_keys) wanted known,
      subst
          (λ l.
            run_once later_deliver_error later_record_error (ok summaries) later_keys_error t
            ≡ (t, quiet_answer l later_keys_error))
          wanted
          (quiet_run later_deliver_error later_record_error summaries later_keys_error t known),
    )

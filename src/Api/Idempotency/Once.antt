-- ===== src/Api/Idempotency/Once.antt =====
-- A key is used once: as long as the record of a request is neither collected nor lost with a store in
-- memory, a request that comes again under its key changes nothing.
use aria_underlay.Base.{
  Text, List, [], ◌∷◌, Option, none, some, true, false, ◌≡◌, refl, sym, ap, ◌∙◌, subst, ◌⊎◌, ◌≢◌,
  All, inl, inr, Bool-cases, Option-cases, text_ord,
}
use aria_underlay.Base.BTree.{
  get, insert, remove, get-insert, get-remove, same, same_iff, same_refl,
}
use aria_underlay.Base.Errors.{UnderlayError, UnderlayResult, ok, err, >>=-eq-ok, >>-eq-ok}
use aria_underlay.Planner.DevicePlan.{DeviceDesiredState}
use aria_underlay.Planner.DomainPlan.{plan_underlay_domain}
use aria_underlay.Tx.Locks.{normalize_scope_keys}
use aria_underlay.Api.Response.{ApplyIntentResponse}
use aria_underlay.Api.Request.{ApplyDomainIntentRequest}
use aria_underlay.Api.Idempotency.{
  ApplyIdempotencyRecord, ApplyIdempotencyRegistry, StoreKind, slot, keep, restarted, remove_record,
}
use aria_underlay.Api.Service.{
  Surroundings, Served, read_store, keyed_payload, admit_request, apply_first, reuse, serve_keyed,
  serve, apply_domain_intent, annotate_apply_idempotency_response, Admitted, apply_scope_lock_keys,
}

-- What the service goes through.
pub data Step : Type 0 where
  request : Surroundings → ApplyDomainIntentRequest → Step
  restart : Step
  collected : (key : Text) → Step

unfoldable pub after : StoreKind → ApplyIdempotencyRegistry → List Step → ApplyIdempotencyRegistry
after kind r [] = r
after kind r (request surroundings q ∷ steps) =
    after kind (apply_domain_intent surroundings q r).registry steps
after kind r (restart ∷ steps) = after kind (restarted kind r) steps
after kind r (collected key ∷ steps) = after kind (remove_record key r) steps

-- A step that does not collect the record under a key.
abbrev pub IsSparing : Text → Step → Type 0
IsSparing k (request surroundings q) = Unit
IsSparing k restart = Unit
IsSparing k (collected key) = k ≢ key

-- A step after which the record under a key is still there.
abbrev pub IsKeeping : StoreKind → Text → Step → Type 0
IsKeeping kind k (request surroundings q) = Unit
IsKeeping kind k restart = kind ≡ StoreKind.json_file
IsKeeping kind k (collected key) = k ≢ key

-- What a slot holds after it was looked up.
abbrev Found :
    Text → ApplyIdempotencyRegistry × UnderlayResult (Option ApplyIdempotencyRecord) → Type 0
Found j (r, err e) = Unit
Found j (r, ok x) = get j r.entries ≡ some x

module _ {V : Type 0} where
  get_same : (j : Text) (v : V) (m : List (Text × V)) → get j (insert j v m) ≡ some v
  get_same j v m = get-insert j j v m ∙ rw (same_refl j) refl

  get_apart :
      (k j : Text) (v : V) (m : List (Text × V)) → same k j ≡ false → get k (insert j v m) ≡ get k m
  get_apart k j v m h = get-insert k j v m ∙ rw h refl

module _ (j : Text) (r : ApplyIdempotencyRegistry) where
  slot_hit :
      (stored : UnderlayResult (Option ApplyIdempotencyRecord)) (x : Option ApplyIdempotencyRecord)
      → get j r.entries ≡ some x
      → slot j stored r ≡ (r, ok x)
  unfolding slot
  slot_hit stored x h = rw (slot, h) refl

  slot_miss :
      (stored : UnderlayResult (Option ApplyIdempotencyRecord))
      → get j r.entries ≡ none
      → slot j stored r ≡ elim stored [
        | ok found ↦ (record r { entries = insert j found r.entries }, ok found)
        | err e ↦ (r, err e)
      ]
  unfolding slot
  slot_miss stored h = rw (slot, h) refl

  missed-Found :
      (stored : UnderlayResult (Option ApplyIdempotencyRecord))
      → Found j (elim stored [
        | ok found ↦ (record r { entries = insert j found r.entries }, ok found)
        | err e ↦ (r, err e)
      ])
  missed-Found (ok found) = get_same j found r.entries
  missed-Found (err e) = tt

  slot-Found : (stored : UnderlayResult (Option ApplyIdempotencyRecord)) → Found j (slot j stored r)
  slot-Found stored = elim (Option-cases (get j r.entries)) [
    | inl h ↦ rw (slot_miss stored h) (missed-Found stored)
    | inr (x, h) ↦ rw (slot_hit stored x h) h
  ]

  -- What is true of the registry as it is, and after a slot was filled from the store, is true after any
  -- lookup.
  slot_elim :
      (Q : ApplyIdempotencyRegistry × UnderlayResult (Option ApplyIdempotencyRecord) → Type 0)
      (env : Surroundings)
      → ((x : Option ApplyIdempotencyRecord) → get j r.entries ≡ some x → Q (r, ok x))
      → ((e : UnderlayError) → Q (r, err e))
      → (get j r.entries ≡ none
          → Q (record r { entries = insert j (get j r.store) r.entries }, ok (get j r.store)))
      → Q (slot j (read_store env j r) r)
  unfolding read_store
  slot_elim Q env hit failed filled = elim (Option-cases (get j r.entries)) [
    | inr (x, h) ↦ rw (slot_hit (read_store env j r) x h) (hit x h)
    | inl h ↦ rw (slot_miss (read_store env j r) h) (elim (Option-cases env.read_error) [
      | inl e ↦ rw e (filled h)
      | inr (error, e) ↦ rw e (failed error)
    ])
  ]

-- An invariant of the registry that looking up a slot, storing under a free slot and forgetting the slots
-- preserve.
module _ (P : ApplyIdempotencyRegistry → Type 0)
    (looked : (env : Surroundings) (j : Text) (r : ApplyIdempotencyRegistry)
      → P r
      → P (slot j (read_store env j r) r).0)
    (kept : (j : Text) (x : ApplyIdempotencyRecord) (r : ApplyIdempotencyRegistry)
      → P r
      → get j r.entries ≡ some none
      → P (keep j x r)) where
  module _ (env : Surroundings) (q : ApplyDomainIntentRequest) where
    serve_keyed-preserves :
        (key fingerprint : Text) (ds : List DeviceDesiredState)
        (out : ApplyIdempotencyRegistry × UnderlayResult (Option ApplyIdempotencyRecord))
        → P out.0
        → Found key out
        → P (serve_keyed env q key fingerprint ds out).registry
    unfolding serve_keyed apply_first
    serve_keyed-preserves key fingerprint ds (r, err e) p h = p
    serve_keyed-preserves key fingerprint ds (r, ok (some x)) p h = p
    serve_keyed-preserves key fingerprint ds (r, ok none) p h =
        elim (Option-cases env.write_error) [
          | inl e ↦ rw e (kept key _ r p h)
          | inr (error, e) ↦ rw e p
        ]

    serve-preserves :
        (r : ApplyIdempotencyRegistry) (m : UnderlayResult (Admitted env))
        → P r
        → P (serve env q r m).registry
    unfolding serve
    serve-preserves r (err e) p = p
    serve-preserves r (ok (none, ds)) p = p
    serve-preserves r (ok (some (key, fingerprint), ds)) p =
        serve_keyed-preserves key fingerprint ds _ (looked env key r p) (slot-Found key r _)

  module _ (kind : StoreKind) (C : Step → Type 0)
      (forgot : (r : ApplyIdempotencyRegistry) → C restart → P r → P (restarted kind r))
      (removed : (j : Text) (r : ApplyIdempotencyRegistry)
        → C (collected j)
        → P r
        → P (remove_record j r)) where
    after-preserves :
        (steps : List Step) (r : ApplyIdempotencyRegistry)
        → All C steps
        → P r
        → P (after kind r steps)
    unfolding after apply_domain_intent
    after-preserves [] r c p = p
    after-preserves (request env q ∷ steps) r c p =
        after-preserves steps _ c.1 (serve-preserves env q r (admit_request env q) p)
    after-preserves (restart ∷ steps) r c p = after-preserves steps _ c.1 (forgot r c.0 p)
    after-preserves (collected j ∷ steps) r c p = after-preserves steps _ c.1 (removed j r c.0 p)

module _ (k : Text) where
  -- What a slot says is what the store says.
  Tracks : ApplyIdempotencyRegistry → Type 0
  Tracks r = (x : ApplyIdempotencyRecord) → get k r.entries ≡ some (some x) → get k r.store ≡ some x

  -- The store has a record, and the slot is unknown or has it too.
  Known : ApplyIdempotencyRecord → ApplyIdempotencyRegistry → Type 0
  Known x r =
      (get k r.store ≡ some x) × ((get k r.entries ≡ none) ⊎ (get k r.entries ≡ some (some x)))

  Tracks-looked :
      (env : Surroundings) (j : Text) (r : ApplyIdempotencyRegistry)
      → Tracks r
      → Tracks (slot j (read_store env j r) r).0
  unfolding Tracks
  Tracks-looked env j r t =
      slot_elim j r (λ out. Tracks out.0) env (λ y h. t) (λ e. t)
        (λ h x. elim (Bool-cases (same k j)) [
          | inl e ↦ λ g.
              let here : get j r.store ≡ some x =
                (let a = get_same j (get j r.store) r.entries in
                  let q = (same_iff k j).0 e in cc) in
              subst (λ i. get i r.store ≡ some x) (sym ((same_iff k j).0 e)) here
          | inr e ↦ λ g. t x (sym (get_apart k j (get j r.store) r.entries e) ∙ g)
        ])

  Tracks-kept :
      (j : Text) (y : ApplyIdempotencyRecord) (r : ApplyIdempotencyRegistry)
      → Tracks r
      → get j r.entries ≡ some none
      → Tracks (keep j y r)
  unfolding Tracks keep
  Tracks-kept j y r t h x = elim (Bool-cases (same k j)) [
    | inl e ↦ λ g.
        let a = get-insert k j (some y) r.entries in
        let b = get-insert k j y r.store in
        let l : get k (insert j y r.store) ≡ some y = b ∙ rw e refl in
        let m : some (some y) ≡ some (some x) =
          (let c : get k (insert j (some y) r.entries) ≡ some (some y) = a ∙ rw e refl in
            sym c ∙ g) in
        cc
    | inr e ↦ λ g. get_apart k j y r.store e ∙ t x (sym (get_apart k j (some y) r.entries e) ∙ g)
  ]

  module _ (x : ApplyIdempotencyRecord) where
    Known-looked :
        (env : Surroundings) (j : Text) (r : ApplyIdempotencyRegistry)
        → Known x r
        → Known x (slot j (read_store env j r) r).0
    unfolding Known
    Known-looked env j r (s, t) =
        slot_elim j r (λ out. Known x out.0) env (λ y h. (s, t)) (λ e. (s, t))
          (λ h. elim (Bool-cases (same k j)) [
            | inl e ↦
                let q = (same_iff k j).0 e in
                let a = get_same j (get j r.store) r.entries in
                let b : get k (insert j (get j r.store) r.entries) ≡ some (get k r.store) =
                  subst (λ i. get k (insert i (get i r.store) r.entries) ≡ some (get k r.store)) q
                    (get_same k (get k r.store) r.entries) in
                (s, inr (b ∙ ap some s))
            | inr e ↦
                let a = get_apart k j (get j r.store) r.entries e in
                (s, elim t [ inl n ↦ inl (a ∙ n) | inr f ↦ inr (a ∙ f) ])
          ])

    Known-kept :
        (j : Text) (y : ApplyIdempotencyRecord) (r : ApplyIdempotencyRegistry)
        → Known x r
        → get j r.entries ≡ some none
        → Known x (keep j y r)
    unfolding Known keep
    Known-kept j y r (s, t) h = elim (Bool-cases (same k j)) [
      | inl e ↦
          let g : get k r.entries ≡ some none =
            subst (λ i. get i r.entries ≡ some none) (sym ((same_iff k j).0 e)) h in
          elim t [ inl n ↦ cc | inr f ↦ cc ]
      | inr e ↦
          let a = get_apart k j (some y) r.entries e in
          (get_apart k j y r.store e ∙ s, elim t [ inl n ↦ inl (a ∙ n) | inr f ↦ inr (a ∙ f) ])
    ]

    -- What a request gets under a key that is known.
    SlotKnown : ApplyIdempotencyRegistry × UnderlayResult (Option ApplyIdempotencyRecord) → Type 0
    SlotKnown (r, err e) = Unit
    SlotKnown (r, ok y) = y ≡ some x

    slot-Known :
        (env : Surroundings) (r : ApplyIdempotencyRegistry)
        → Known x r
        → SlotKnown (slot k (read_store env k r) r)
    unfolding Known SlotKnown
    slot-Known env r (s, t) =
        slot_elim k r SlotKnown env (λ y h. elim t [ inl n ↦ cc | inr f ↦ cc ]) (λ e. tt) (λ h. s)

-- An answer that repeats what is kept, to a request with the same payload.
abbrev pub Repeats : ApplyIdempotencyRecord → (fingerprint : Text) → ApplyIntentResponse → Type 0
Repeats x fingerprint response =
    (fingerprint ≡ x.fingerprint)
    × (response.device_results ≡ x.response.device_results)
    × (response.status ≡ x.response.status)

ok_injective : {A : Type 0} (a b : A) → ok a ≡ ok b → a ≡ b
ok_injective a b h = cc

module _ (env : Surroundings) (q : ApplyDomainIntentRequest) (k f : Text) where
  reuse-Repeats :
      (x : ApplyIdempotencyRecord) (response : ApplyIntentResponse)
      → reuse env q k f x ≡ ok response
      → Repeats x f response × (response.reused ≡ true)
  unfolding annotate_apply_idempotency_response reuse
  reuse-Repeats x response h = elim (Bool-cases (same x.fingerprint f)) [
    | inl e ↦
        let g = ok_injective _ _ (rw e at h) in
        (
          (
            sym ((same_iff x.fingerprint f).0 e),
            sym (ap (λ r. r.device_results) g),
            sym (ap (λ r. r.status) g),
          ),
          sym (ap (λ r. r.reused) g),
        )
    | inr e ↦ let g = rw e at h in cc
  ]

  -- The answer to a request under a key that is known.
  Untouched : ApplyIdempotencyRecord → Served → Type 0
  Untouched x out =
      (out.turns ≡ [])
      × ((response : ApplyIntentResponse)
          → out.answer ≡ ok response
          → Repeats x f response × (response.reused ≡ true))

  serve_keyed-Untouched :
      (x : ApplyIdempotencyRecord) (ds : List DeviceDesiredState)
      (out : ApplyIdempotencyRegistry × UnderlayResult (Option ApplyIdempotencyRecord))
      → SlotKnown k x out
      → Untouched x (serve_keyed env q k f ds out)
  unfolding Untouched SlotKnown serve_keyed
  serve_keyed-Untouched x ds (r, err e) h = (refl, λ response g. cc)
  serve_keyed-Untouched x ds (r, ok none) h = cc
  serve_keyed-Untouched x ds (r, ok (some y)) h = (
    refl,
    λ response g.
        let same_record : y ≡ x = cc in
        reuse-Repeats x response (subst (λ z. reuse env q k f z ≡ ok response) same_record g),
  )

  -- The first answer under a key, once it is stored.
  Stored : Served → Type 0
  Stored out =
      (response : ApplyIntentResponse)
      → out.answer ≡ ok response
      → (x : ApplyIdempotencyRecord) × Known k x out.registry × Repeats x f response

  serve_keyed-Stored :
      (ds : List DeviceDesiredState)
      (out : ApplyIdempotencyRegistry × UnderlayResult (Option ApplyIdempotencyRecord))
      → env.write_error ≡ none
      → Tracks k out.0
      → Found k out
      → Stored (serve_keyed env q k f ds out)
  unfolding Stored Tracks Known serve_keyed apply_first keep
  serve_keyed-Stored ds (r, err e) w t h = λ response g. cc
  serve_keyed-Stored ds (r, ok (some y)) w t h =
      λ response g. (y, (t y h, inr h), (reuse-Repeats y response g).0)
  serve_keyed-Stored ds (r, ok none) w t h = rw w (λ response g.
      let e = ok_injective _ _ g in
      (
        _,
        (get_same k _ r.store, inr (get_same k _ r.entries)),
        (refl, sym (ap (λ z. z.device_results) e), sym (ap (λ z. z.status) e)),
      ))

  -- A request that is let in has the payload that its key and its content give.
  admit_request-payload :
      (payload : Option (Text × Text)) (ds : List DeviceDesiredState)
      → admit_request env q ≡ ok (payload, ds)
      → keyed_payload env q ≡ ok payload
  unfolding admit_request
  admit_request-payload payload ds h =
      let s1 = >>=-eq-ok (apply_scope_lock_keys q) _ h in
      let s2 = >>=-eq-ok (normalize_scope_keys s1.0) _ s1.2 in
      let s3 = >>-eq-ok (env.lock s2.0) _ s2.2 in
      let s4 = >>=-eq-ok (keyed_payload env q) _ s3.1 in
      let s5 = >>=-eq-ok (plan_underlay_domain q.intent) _ s4.2 in
      s4.1 ∙ ap ok (ap (λ z. z.0) (ok_injective _ _ s5.2))

  module _ (keyed : keyed_payload env q ≡ ok (some (k, f))) where
    admitted_payload :
        (payload : Option (Text × Text)) (ds : List DeviceDesiredState)
        → admit_request env q ≡ ok (payload, ds)
        → payload ≡ some (k, f)
    admitted_payload payload ds h =
        ok_injective _ _ (sym (admit_request-payload payload ds h) ∙ keyed)

    serve-Untouched :
        (x : ApplyIdempotencyRecord) (r : ApplyIdempotencyRegistry)
        (m : UnderlayResult (Admitted env))
        → Known k x r
        → admit_request env q ≡ m
        → Untouched x (serve env q r m)
    unfolding serve Untouched
    serve-Untouched x r (err e) n p = (refl, λ response g. cc)
    serve-Untouched x r (ok (payload, ds)) n p =
        subst (λ z. Untouched x (serve env q r (ok (z, ds)))) (sym (admitted_payload payload ds p))
          (serve_keyed-Untouched x ds _ (slot-Known k x env r n))

    serve-Stored :
        (r : ApplyIdempotencyRegistry) (m : UnderlayResult (Admitted env))
        → env.write_error ≡ none
        → Tracks k r
        → admit_request env q ≡ m
        → Stored (serve env q r m)
    unfolding serve Stored
    serve-Stored r (err e) w t p = λ response g. cc
    serve-Stored r (ok (payload, ds)) w t p =
        subst (λ z. Stored (serve env q r (ok (z, ds)))) (sym (admitted_payload payload ds p))
          (serve_keyed-Stored ds _ w (Tracks-looked k env k r t) (slot-Found k r _))

-- The registry of a service that has just started.
abbrev pub started_with : List (Text × ApplyIdempotencyRecord) → ApplyIdempotencyRegistry
started_with store = record { entries = []; store = store }

started-Tracks :
    (k : Text) (store : List (Text × ApplyIdempotencyRecord)) → Tracks k (started_with store)
unfolding Tracks get
started-Tracks k store x h = cc

Tracks-restarted :
    (k : Text) (kind : StoreKind) (r : ApplyIdempotencyRegistry)
    → Unit {0}
    → Tracks k r
    → Tracks k (restarted kind r)
unfolding Tracks get restarted
Tracks-restarted k StoreKind.in_memory r u t x h = cc
Tracks-restarted k StoreKind.json_file r u t x h = cc

Known-restarted :
    (k : Text) (x : ApplyIdempotencyRecord) (kind : StoreKind) (r : ApplyIdempotencyRegistry)
    → kind ≡ StoreKind.json_file
    → Known k x r
    → Known k x (restarted kind r)
unfolding Known get restarted
Known-restarted k x StoreKind.in_memory r e (s, t) = cc
Known-restarted k x StoreKind.json_file r e (s, t) = (s, inl refl)

get_kept :
    (k j : Text) (m : List (Text × ApplyIdempotencyRecord)) → k ≢ j → get k (remove j m) ≡ get k m
get_kept k j m n = elim (Bool-cases (same k j)) [
  | inl e ↦ absurd (n ((same_iff k j).0 e))
  | inr e ↦ get-remove k j m ∙ rw e refl
]

Tracks-removed :
    (k j : Text) (r : ApplyIdempotencyRegistry) → k ≢ j → Tracks k r → Tracks k (remove_record j r)
unfolding Tracks remove_record
Tracks-removed k j r n t x h = get_kept k j r.store n ∙ t x h

Known-removed :
    (k : Text) (x : ApplyIdempotencyRecord) (j : Text) (r : ApplyIdempotencyRegistry)
    → k ≢ j
    → Known k x r
    → Known k x (remove_record j r)
unfolding Known remove_record
Known-removed k x j r n (s, t) = (get_kept k j r.store n ∙ s, t)

-- A request under a key was answered and its answer was stored, at any time after a start of the service
-- with any store, as long as the record under the key has not been collected since. Then, after any further
-- requests, collections of other records, and restarts if the store keeps its records in files, whatever
-- the store, the locks and the devices answer meanwhile, a request under the same key changes no device;
-- and if it is answered, then its payload is the same, and the answer says that it is reused and has the
-- status and the results of the first.
pub apply_domain_intent-once :
    (kind : StoreKind) (store : List (Text × ApplyIdempotencyRecord)) (before between : List Step)
    (env again : Surroundings) (first second : ApplyDomainIntentRequest) (k f g : Text)
    (response : ApplyIntentResponse)
    → All (IsSparing k) before
    → All (IsKeeping kind k) between
    → keyed_payload env first ≡ ok (some (k, f))
    → keyed_payload again second ≡ ok (some (k, g))
    → env.write_error ≡ none
    → (apply_domain_intent env first (after kind (started_with store) before)).answer ≡ ok response
    → ((apply_domain_intent again second (
          after kind
            (apply_domain_intent env first (after kind (started_with store) before)).registry
            between)).turns
        ≡ [])
      × ((repeated : ApplyIntentResponse)
          → (apply_domain_intent again second (
              after kind
                (apply_domain_intent env first (after kind (started_with store) before)).registry
                between)).answer
            ≡ ok repeated
          → (g ≡ f)
            × (repeated.device_results ≡ response.device_results)
            × (repeated.status ≡ response.status)
            × (repeated.reused ≡ true))
unfolding apply_domain_intent Untouched Stored
apply_domain_intent-once kind store before between env again first second k f g response spared held
      p q w a =
    let r = after kind (started_with store) before in
    let t =
      after-preserves (Tracks k) (Tracks-looked k) (Tracks-kept k) kind (IsSparing k)
        (Tracks-restarted k kind) (Tracks-removed k) before (started_with store) spared
        (started-Tracks k store) in
    let (x, known, e) =
      serve-Stored env first k f p r (admit_request env first) w t refl response a in
    let known' =
      after-preserves (Known k x) (Known-looked k x) (Known-kept k x) kind (IsKeeping kind k)
        (Known-restarted k x kind) (Known-removed k x) between _ held known in
    let (quiet, same_answer) =
      serve-Untouched again second k g q x _ (admit_request again second) known' refl in
    (
      quiet,
      λ repeated h.
          let (e', reused) = same_answer repeated h in
          (e'.0 ∙ sym e.0, e'.1 ∙ sym e.1, e'.2 ∙ sym e.2, reused),
    )

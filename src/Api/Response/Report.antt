-- ===== src/Api/Response/Report.antt =====
-- api/response.rs: `ApplyVerifyReport::from_device_results`, the report on a whole request.
use aria_underlay.Base.{
  is_nil, ℕ, ◌+◌, List, [], ◌∷◌, ◌++◌, none, some, Bool, true, false, not, ◌||◌, ◌&&◌, length, any,
  if◌then◌else◌, ◌≡◌, refl, sym, ap, ◌∙◌, inl, inr, Bool-cases, Option-cases, Option, arith,
}
use aria_underlay.Model.{DeviceId}
use aria_underlay.Api.Response.{
  DeviceApplyResult, DeviceVerifyReport, DeviceVerifyStatus, ApplyVerifyStatus, ApplyVerifyReport,
}

-- The reports that are there: `filter_map(|result| result.verify_report.as_ref())`.
unfoldable pub reports : List DeviceApplyResult → List DeviceVerifyReport
reports [] = []
reports (r ∷ rs) =
    let rest = reports rs in elim r.verify_report [ none ↦ rest | some report ↦ report ∷ rest ]

-- The lists that the loop fills, in the order of the reports.
pub record Sorted : Type 0 where
  pub passed : List DeviceId
  pub failed : List DeviceId
  pub skipped : List DeviceId
  pub in_doubt : List DeviceId
  pub warning_count : ℕ

unfoldable pub sort_report : Sorted → DeviceVerifyReport → Sorted
sort_report s r =
    let t = record s { warning_count = s.warning_count + length r.warnings } in
    elim r.status [
      | DeviceVerifyStatus.passed ↦ record t { passed = s.passed ++ r.device_id ∷ [] }
      | DeviceVerifyStatus.failed ↦ record t { failed = s.failed ++ r.device_id ∷ [] }
      | DeviceVerifyStatus.skipped ↦ record t { skipped = s.skipped ++ r.device_id ∷ [] }
      | DeviceVerifyStatus.in_doubt ↦ record t { in_doubt = s.in_doubt ++ r.device_id ∷ [] }
    ]

unfoldable pub sort_reports : Sorted → List DeviceVerifyReport → Sorted
sort_reports s [] = s
sort_reports s (r ∷ rs) = sort_reports (sort_report s r) rs

abbrev pub nothing_sorted : Sorted
nothing_sorted = record { passed = []; failed = []; skipped = []; in_doubt = []; warning_count = 0 }

unfoldable pub verify_status : Sorted → ApplyVerifyStatus
verify_status s =
    if not (is_nil s.in_doubt)
    then ApplyVerifyStatus.in_doubt
    else if not (is_nil s.failed) && not (is_nil s.passed)
    then ApplyVerifyStatus.partial
    else if not (is_nil s.failed)
    then ApplyVerifyStatus.failed
    else if not (is_nil s.passed)
    then ApplyVerifyStatus.passed
    else ApplyVerifyStatus.skipped

unfoldable pub from_device_results : List DeviceApplyResult → ApplyVerifyReport
from_device_results device_results =
    let s = sort_reports nothing_sorted (reports device_results) in
    record {
      status = verify_status s;
      passed = s.passed;
      failed = s.failed;
      skipped = s.skipped;
      in_doubt = s.in_doubt;
      attention_required = not (is_nil s.failed) || not (is_nil s.in_doubt);
      warning_count = s.warning_count;
    }

abbrev pub is_status : DeviceVerifyStatus → DeviceVerifyReport → Bool
is_status DeviceVerifyStatus.passed r = elim r.status [
  | DeviceVerifyStatus.passed ↦ true
  | _ ↦ false
]
is_status DeviceVerifyStatus.failed r = elim r.status [
  | DeviceVerifyStatus.failed ↦ true
  | _ ↦ false
]
is_status DeviceVerifyStatus.skipped r = elim r.status [
  | DeviceVerifyStatus.skipped ↦ true
  | _ ↦ false
]
is_status DeviceVerifyStatus.in_doubt r = elim r.status [
  | DeviceVerifyStatus.in_doubt ↦ true
  | _ ↦ false
]

-- The devices whose report has a status, in the order of the reports.
unfoldable pub devices_with : DeviceVerifyStatus → List DeviceVerifyReport → List DeviceId
devices_with status [] = []
devices_with status (r ∷ rs) =
    let rest = devices_with status rs in if is_status status r then r.device_id ∷ rest else rest

unfoldable pub count_warnings : List DeviceVerifyReport → ℕ
count_warnings [] = 0
count_warnings (r ∷ rs) = length r.warnings + count_warnings rs

abbrev pub is_attended : DeviceVerifyReport → Bool
is_attended r = elim r.status [
  | DeviceVerifyStatus.failed ↦ true
  | DeviceVerifyStatus.in_doubt ↦ true
  | _ ↦ false
]

is_nil_snoc : {A : Type 0} (l : List A) (a : A) → is_nil (l ++ a ∷ []) ≡ false
is_nil_snoc [] a = refl
is_nil_snoc (b ∷ l) a = refl

abbrev attention : Sorted → Bool
attention s = not (is_nil s.failed) || not (is_nil s.in_doubt)

sort_report-attention :
    (s : Sorted) (r : DeviceVerifyReport)
    → attention (sort_report s r) ≡ attention s || is_attended r
unfolding sort_report
sort_report-attention s r =
    ground (arith, is_nil_snoc s.failed r.device_id, is_nil_snoc s.in_doubt r.device_id)

sort_reports-attention :
    (s : Sorted) (rs : List DeviceVerifyReport)
    → attention (sort_reports s rs) ≡ attention s || any is_attended rs
unfolding sort_reports
sort_reports-attention s [] = ground arith
sort_reports-attention s (r ∷ rs) =
    ground (arith, sort_reports-attention (sort_report s r) rs, sort_report-attention s r)

append_assoc : {A : Type 0} (a b c : List A) → (a ++ b) ++ c ≡ a ++ (b ++ c)
append_assoc [] b c = refl
append_assoc (x ∷ a) b c = ap (λ r. x ∷ r) (append_assoc a b c)

append-nil : {A : Type 0} (a : List A) → a ++ [] ≡ a
append-nil [] = refl
append-nil (x ∷ a) = ap (λ r. x ∷ r) (append-nil a)

-- What the loop has added to each list.
record IsAdded (s t : Sorted) (rs : List DeviceVerifyReport) : Type 0 where
  passed : t.passed ≡ s.passed ++ devices_with DeviceVerifyStatus.passed rs
  failed : t.failed ≡ s.failed ++ devices_with DeviceVerifyStatus.failed rs
  skipped : t.skipped ≡ s.skipped ++ devices_with DeviceVerifyStatus.skipped rs
  in_doubt : t.in_doubt ≡ s.in_doubt ++ devices_with DeviceVerifyStatus.in_doubt rs
  warnings : t.warning_count ≡ s.warning_count + count_warnings rs

one_report :
    (s : Sorted) (r : DeviceVerifyReport) (status : DeviceVerifyStatus)
    → r.status ≡ status
    → IsAdded s (sort_report s r) (r ∷ [])
unfolding sort_report devices_with count_warnings
one_report s r DeviceVerifyStatus.passed e = rw e (record {
  passed = refl;
  failed = sym (append-nil s.failed);
  skipped = sym (append-nil s.skipped);
  in_doubt = sym (append-nil s.in_doubt);
  warnings = omega arith;
})
one_report s r DeviceVerifyStatus.failed e = rw e (record {
  passed = sym (append-nil s.passed);
  failed = refl;
  skipped = sym (append-nil s.skipped);
  in_doubt = sym (append-nil s.in_doubt);
  warnings = omega arith;
})
one_report s r DeviceVerifyStatus.skipped e = rw e (record {
  passed = sym (append-nil s.passed);
  failed = sym (append-nil s.failed);
  skipped = refl;
  in_doubt = sym (append-nil s.in_doubt);
  warnings = omega arith;
})
one_report s r DeviceVerifyStatus.in_doubt e = rw e (record {
  passed = sym (append-nil s.passed);
  failed = sym (append-nil s.failed);
  skipped = sym (append-nil s.skipped);
  in_doubt = refl;
  warnings = omega arith;
})

devices_with-cons :
    (status : DeviceVerifyStatus) (r : DeviceVerifyReport) (rs : List DeviceVerifyReport)
    → devices_with status (r ∷ []) ++ devices_with status rs ≡ devices_with status (r ∷ rs)
unfolding devices_with
devices_with-cons status r rs = elim (Bool-cases (is_status status r)) [
  | inl e ↦ rw e refl
  | inr e ↦ rw e refl
]

added_list :
    (status : DeviceVerifyStatus) (r : DeviceVerifyReport) (rs : List DeviceVerifyReport)
    (before between after : List DeviceId)
    → between ≡ before ++ devices_with status (r ∷ [])
    → after ≡ between ++ devices_with status rs
    → after ≡ before ++ devices_with status (r ∷ rs)
added_list status r rs before between after e f =
    f
    ∙ ap (λ l. l ++ devices_with status rs) e
    ∙ append_assoc before (devices_with status (r ∷ [])) (devices_with status rs)
    ∙ ap (λ l. before ++ l) (devices_with-cons status r rs)

sort_reports-IsAdded :
    (s : Sorted) (rs : List DeviceVerifyReport) → IsAdded s (sort_reports s rs) rs
unfolding sort_reports devices_with count_warnings
sort_reports-IsAdded s [] = record {
  passed = sym (append-nil s.passed);
  failed = sym (append-nil s.failed);
  skipped = sym (append-nil s.skipped);
  in_doubt = sym (append-nil s.in_doubt);
  warnings = omega arith;
}
sort_reports-IsAdded s (r ∷ rs) =
    let one = one_report s r r.status refl in
    let rest = sort_reports-IsAdded (sort_report s r) rs in
    record {
      passed = added_list DeviceVerifyStatus.passed r rs s.passed _ _ one.passed rest.passed;
      failed = added_list DeviceVerifyStatus.failed r rs s.failed _ _ one.failed rest.failed;
      skipped = added_list DeviceVerifyStatus.skipped r rs s.skipped _ _ one.skipped rest.skipped;
      in_doubt =
          added_list DeviceVerifyStatus.in_doubt r rs s.in_doubt _ _ one.in_doubt rest.in_doubt;
      warnings = (let a = one.warnings in let b = rest.warnings in omega arith);
    }

-- What a result adds to the list of a status, to the warnings and to the attention that is asked for; one
-- without a report adds nothing.
abbrev pub listed_by : DeviceVerifyStatus → Option DeviceVerifyReport → List DeviceId
listed_by status none = []
listed_by status (some report) = if is_status status report then report.device_id ∷ [] else []

abbrev pub warnings_of : Option DeviceVerifyReport → ℕ
warnings_of none = 0
warnings_of (some report) = length report.warnings

abbrev pub asks_attention : Option DeviceVerifyReport → Bool
asks_attention none = false
asks_attention (some report) = is_attended report

unfoldable pub listed : DeviceVerifyStatus → List DeviceApplyResult → List DeviceId
listed status [] = []
listed status (r ∷ rs) = listed_by status r.verify_report ++ listed status rs

unfoldable pub warned : List DeviceApplyResult → ℕ
warned [] = 0
warned (r ∷ rs) = warnings_of r.verify_report + warned rs

listed-reports :
    (status : DeviceVerifyStatus) (rs : List DeviceApplyResult)
    → devices_with status (reports rs) ≡ listed status rs
unfolding devices_with reports listed
listed-reports status [] = refl
listed-reports status (r ∷ rs) = elim (Option-cases r.verify_report) [
  | inl e ↦ rw e (listed-reports status rs)
  | inr (report, e) ↦ elim (Bool-cases (is_status status report)) [
    | inl b ↦ rw (e, b) (ap (λ l. report.device_id ∷ l) (listed-reports status rs))
    | inr b ↦ rw (e, b) (listed-reports status rs)
  ]
]

warned-reports : (rs : List DeviceApplyResult) → count_warnings (reports rs) ≡ warned rs
unfolding count_warnings reports warned
warned-reports [] = refl
warned-reports (r ∷ rs) = elim (Option-cases r.verify_report) [
  | inl e ↦ rw e (let h = warned-reports rs in omega arith)
  | inr (report, e) ↦ rw e (let h = warned-reports rs in omega arith)
]

attended-reports :
    (rs : List DeviceApplyResult)
    → any is_attended (reports rs) ≡ any (λ r. asks_attention r.verify_report) rs
unfolding reports
attended-reports [] = refl
attended-reports (r ∷ rs) = elim (Option-cases r.verify_report) [
  | inl e ↦ rw e (attended-reports rs)
  | inr (report, e) ↦ rw e (ap (λ b. is_attended report || b) (attended-reports rs))
]

-- Each list of the report on the request holds the devices whose verification ended in its way, in the
-- order of the results, and no other; the warnings are counted over all results; and attention is asked
-- for exactly when the verification of some device failed or is in doubt.
pub from_device_results_complete :
    (rs : List DeviceApplyResult)
    → ((from_device_results rs).passed ≡ listed DeviceVerifyStatus.passed rs)
      × ((from_device_results rs).failed ≡ listed DeviceVerifyStatus.failed rs)
      × ((from_device_results rs).skipped ≡ listed DeviceVerifyStatus.skipped rs)
      × ((from_device_results rs).in_doubt ≡ listed DeviceVerifyStatus.in_doubt rs)
      × ((from_device_results rs).warning_count ≡ warned rs)
      × ((from_device_results rs).attention_required ≡ any (λ r. asks_attention r.verify_report) rs)
unfolding from_device_results
from_device_results_complete rs =
    let added = sort_reports-IsAdded nothing_sorted (reports rs) in
    (
      added.passed ∙ listed-reports DeviceVerifyStatus.passed rs,
      added.failed ∙ listed-reports DeviceVerifyStatus.failed rs,
      added.skipped ∙ listed-reports DeviceVerifyStatus.skipped rs,
      added.in_doubt ∙ listed-reports DeviceVerifyStatus.in_doubt rs,
      (let w = added.warnings in let c = warned-reports rs in omega arith),
      sort_reports-attention nothing_sorted (reports rs) ∙ attended-reports rs,
    )

-- The status of the report needs attention exactly when the report asks for it.
pub from_device_results-status :
    (rs : List DeviceApplyResult)
    → (from_device_results rs).attention_required ≡ elim (from_device_results rs).status [
      | ApplyVerifyStatus.passed ↦ false
      | ApplyVerifyStatus.skipped ↦ false
      | _ ↦ true
    ]
unfolding from_device_results verify_status
from_device_results-status rs = ground arith

-- ===== src/Api/Apply/Aggregate.antt =====
-- The status of a request against those of its devices.
use aria_underlay.Base.{
  List, [], ◌∷◌, is_nil, not, ◌&&◌, true, false, ◌≡◌, refl, ◌↔◌, all, any, arith,
}
use aria_underlay.Api.Response.{ApplyStatus, DeviceApplyResult}
use aria_underlay.Api.Apply.{
  is_noop, is_in_doubt, is_successful, mixed_status, aggregate_apply_status,
}

noop-successful :
    (rs : List DeviceApplyResult)
    → all (λ r. is_noop r.status) rs ≡ true
    → all (λ r. is_successful r.status) rs ≡ true
noop-successful [] h = refl
noop-successful (r ∷ rs) h = ground (arith, noop-successful rs)

successful-certain :
    (rs : List DeviceApplyResult)
    → all (λ r. is_successful r.status) rs ≡ true
    → any (λ r. is_in_doubt r.status) rs ≡ false
successful-certain [] h = refl
successful-certain (r ∷ rs) h = ground (arith, successful-certain rs)

-- A request is in doubt exactly when one of its devices is, whatever the others report.
pub aggregate_apply_status-in_doubt :
    (rs : List DeviceApplyResult)
    → (aggregate_apply_status rs ≡ ApplyStatus.in_doubt)
      ↔ (any (λ r. is_in_doubt r.status) rs ≡ true)
unfolding aggregate_apply_status mixed_status
aggregate_apply_status-in_doubt [] = ground arith
aggregate_apply_status-in_doubt (r ∷ []) = ground arith
aggregate_apply_status-in_doubt (r ∷ q ∷ rs) =
    ground (arith, noop-successful (r ∷ q ∷ rs), successful-certain (r ∷ q ∷ rs))

-- A request is reported as successful, with or without warnings or changes, exactly when it has devices
-- and all of them are successful; one without devices is not.
pub aggregate_apply_status-successful :
    (rs : List DeviceApplyResult)
    → is_successful (aggregate_apply_status rs)
      ≡ not (is_nil rs) && all (λ x. is_successful x.status) rs
unfolding aggregate_apply_status mixed_status
aggregate_apply_status-successful [] = refl
aggregate_apply_status-successful (r ∷ []) = ground arith
aggregate_apply_status-successful (r ∷ q ∷ rs) =
    ground (arith, noop-successful (r ∷ q ∷ rs), successful-certain (r ∷ q ∷ rs))

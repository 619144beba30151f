-- ===== src/Api/Coordinator/Rules.antt =====
-- Reasoning about the steps of a run: what holds after a step that succeeds, and after one that fails.
use aria_underlay.Base.{Bool, true, false, ◌≡◌, refl, ◌⊎◌, inl, inr, if◌then◌else◌}
use aria_underlay.Base.Errors.{UnderlayError, UnderlayResult, ok, err}
use aria_underlay.Api.Coordinator.Env.{Run, Exec, caught, lift, ◌>>=◌}

abbrev pub Sat :
    {A : Type 0} → (A → Run → Type 0) → (Run → Type 0) → Run × UnderlayResult A → Type 0
Sat done failed (s, ok a) = done a s
Sat done failed (s, err e) = failed s

-- A rule for `?`: the next step starts from where the first one has left the run.
pub Sat-caught :
    {A B : Type 0} (done : A → Run → Type 0) (after : B → Run → Type 0) (failed : Run → Type 0)
    (next : A → Exec B) (out : Run × UnderlayResult A)
    → Sat done failed out
    → ((a : A) (t : Run) → done a t → Sat after failed (next a t))
    → Sat after failed (caught (λ e t. (t, err e)) next out)
Sat-caught done after failed next (s, ok a) h k = k a s h
Sat-caught done after failed next (s, err e) h k = h

pub Sat-if :
    {A : Type 0} (done : A → Run → Type 0) (failed : Run → Type 0) (b : Bool) (m n : Exec A)
    (s : Run)
    → (b ≡ true → Sat done failed (m s))
    → (b ≡ false → Sat done failed (n s))
    → Sat done failed ((if b then m else n) s)
Sat-if done failed true m n s h k = h refl
Sat-if done failed false m n s h k = k refl

pub Sat-weaken :
    {A : Type 0} (done after : A → Run → Type 0) (failed : Run → Type 0)
    → ((a : A) (t : Run) → done a t → after a t)
    → (out : Run × UnderlayResult A) → Sat done failed out
    → Sat after failed out
Sat-weaken done after failed f (s, ok a) h = f a s h
Sat-weaken done after failed f (s, err e) h = h

-- A check that leaves the run as it is.
pub Sat-lift :
    {A B : Type 0} (after : B → Run → Type 0) (failed : Run → Type 0) (r : UnderlayResult A)
    (next : A → Exec B) (s : Run)
    → failed s
    → ((a : A) → Sat after failed (next a s))
    → Sat after failed ((lift r >>= next) s)
Sat-lift after failed (ok a) next s h k = k a
Sat-lift after failed (err e) next s h k = h

abbrev pub Never : Run → Type 0
Never t = ⊥

-- A step that never fails has succeeded.
pub Sat-ok :
    {A : Type 0} (done : A → Run → Type 0) (out : Run × UnderlayResult A)
    → Sat done Never out
    → (a : A) × (t : Run) × (out ≡ (t, ok a)) × done a t
Sat-ok done (s, ok a) h = (a, s, refl, h)
Sat-ok done (s, err e) h = absurd h

-- The two ways in which a step ends.
pub Sat-cases :
    {A : Type 0} (done : A → Run → Type 0) (failed : Run → Type 0) (out : Run × UnderlayResult A)
    → Sat done failed out
    → ((a : A) × (t : Run) × (out ≡ (t, ok a)) × done a t)
      ⊎ ((e : UnderlayError) × (t : Run) × (out ≡ (t, err e)) × failed t)
Sat-cases done failed (s, ok a) h = inl (a, s, refl, h)
Sat-cases done failed (s, err e) h = inr (e, s, refl, h)

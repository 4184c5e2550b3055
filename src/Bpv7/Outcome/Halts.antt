-- ===== src/Bpv7/Outcome/Halts.antt =====
-- Calls that do not run out of fuel, by one rule for each way to build an outcome.
use ma_sinafadavi_iran.Prelude.{Bool, true, false, ◌≡◌, ◌≢◌, refl, List, [], ◌∷◌, if◌then◌else◌}
use ma_sinafadavi_iran.Bpv7.Outcome.{Fault, Error, Outcome, ok, err, panic, no_fuel, demand, ◌>>=◌}

pub record Halts {ℓ} {A : Type ℓ} (m : Outcome A) : Type ℓ where
  pub halts : m ≢ no_fuel

module _ {ℓ} {A : Type ℓ} where
  pub Halts-ok : (a : A) → Halts (ok a)
  Halts-ok a = record { halts = λ e. cc }

  pub Halts-err : (e : Error) → Halts {A = A} (err e)
  Halts-err e = record { halts = λ e. cc }

  pub Halts-panic : Halts {A = A} panic
  Halts-panic = record { halts = λ e. cc }

  pub Halts-if : (b : Bool) (m n : Outcome A) → Halts m → Halts n → Halts (if b then m else n)
  Halts-if true m n h k = h
  Halts-if false m n h k = k

pub Halts-bind {ℓ κ} :
    {A : Type ℓ} {B : Type κ} (m : Outcome A) (f : A → Outcome B)
    → Halts m
    → ((a : A) → Halts (f a))
    → Halts (m >>= f)
Halts-bind (ok a) f h k = k a
Halts-bind (err e) f h k = Halts-err e
Halts-bind panic f h k = Halts-panic
Halts-bind no_fuel f h k = absurd (h.halts refl)

-- The rest may use that the first part returned.
pub Halts-bind_ok {ℓ κ} :
    {A : Type ℓ} {B : Type κ} (m : Outcome A) (f : A → Outcome B)
    → Halts m
    → ((a : A) → m ≡ ok a → Halts (f a))
    → Halts (m >>= f)
Halts-bind_ok (ok a) f h k = k a refl
Halts-bind_ok (err e) f h k = Halts-err e
Halts-bind_ok panic f h k = Halts-panic
Halts-bind_ok no_fuel f h k = absurd (h.halts refl)

pub Halts-demand : (fs : List Fault) → Halts (demand fs)
Halts-demand [] = Halts-ok tt
Halts-demand (f ∷ fs) = Halts-err _

pub ruleset halts_rules = (Halts-ok, Halts-err, Halts-panic, Halts-if, Halts-bind, Halts-demand)

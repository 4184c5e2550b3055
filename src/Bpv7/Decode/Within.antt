-- ===== src/Bpv7/Decode/Within.antt =====
-- Reads that return with less than a number of bytes left, by one rule for each way to build a read.
use ma_sinafadavi_iran.Prelude.{
  ℕ, ◌≤◌, ◌<◌, ◌≡◌, refl, sym, Bool, true, false, List, length, if◌then◌else◌,
}
use ma_sinafadavi_iran.Bpv7.Outcome.{Error, Outcome, ok, err, panic, no_fuel, ◌>>=◌, wrap}
use ma_sinafadavi_iran.Bpv7.Outcome.Halts.{Halts, Halts-ok, Halts-err, Halts-panic}
use ma_sinafadavi_iran.Bpv7.Decode.{Reads}

pub data Within {A : Type 0} (limit : ℕ) : Outcome (A × List ℕ) → Type 0 where
  value_within : {a : A} {rest : List ℕ} → length rest < limit → Within limit (ok (a, rest))
  error_within : {e : Error} → Within limit (err e)
  panic_within : Within limit panic

-- Every read returns, and leaves no more than there was.
abbrev pub Advances : {A : Type 0} → Reads A → Type 0
Advances read = (limit : ℕ) (input : List ℕ) → length input < limit → Within limit (read input)

-- It also takes a byte at least.
abbrev pub StrictlyAdvances : {A : Type 0} → Reads A → Type 0
StrictlyAdvances read =
    (limit : ℕ) (input : List ℕ) → length input ≤ limit → Within limit (read input)

module _ {A : Type 0} {limit : ℕ} where
  pub Within-ok : (a : A) (rest : List ℕ) → length rest < limit → Within limit (ok (a, rest))
  Within-ok a rest h = value_within h

  pub Within-err : (e : Error) → Within {A = A} limit (err e)
  Within-err e = error_within

  pub Within-if :
      (b : Bool) (m n : Outcome (A × List ℕ))
      → Within limit m
      → Within limit n
      → Within limit (if b then m else n)
  Within-if true m n h k = h
  Within-if false m n h k = k

  pub Within-bind :
      {B : Type 0} (m : Outcome (B × List ℕ)) (f : B × List ℕ → Outcome (A × List ℕ))
      → Within limit m
      → ((x : B × List ℕ) → length x.1 < limit → Within limit (f x))
      → Within limit (m >>= f)
  Within-bind _ f (value_within h) k = k _ h
  Within-bind _ f error_within k = error_within
  Within-bind _ f panic_within k = panic_within

  -- A part of the read that takes no input.
  pub Within-step :
      {B : Type 0} (m : Outcome B) (f : B → Outcome (A × List ℕ))
      → Halts m
      → ((b : B) → Within limit (f b))
      → Within limit (m >>= f)
  Within-step (ok b) f h k = k b
  Within-step (err e) f h k = error_within
  Within-step panic f h k = panic_within
  Within-step no_fuel f h k = absurd (h.halts refl)

  pub Within-wrap : (m : Outcome (A × List ℕ)) → Within limit m → Within limit (wrap m)
  Within-wrap _ (value_within h) = value_within h
  Within-wrap _ error_within = error_within
  Within-wrap _ panic_within = panic_within

  pub Within-rest :
      {m : Outcome (A × List ℕ)} {a : A} {rest : List ℕ}
      → Within limit m
      → m ≡ ok (a, rest)
      → length rest < limit
  Within-rest {rest} (value_within {rest = r} h) e = let same : r ≡ rest = cc in rw (sym same) h
  Within-rest error_within e = cc
  Within-rest panic_within e = cc

  pub Within-Halts : (m : Outcome (A × List ℕ)) → Within limit m → Halts m
  Within-Halts _ (value_within h) = Halts-ok _
  Within-Halts _ error_within = Halts-err _
  Within-Halts _ panic_within = Halts-panic

pub ruleset within_rules = (Within-ok, Within-err, Within-if, Within-bind, Within-wrap)

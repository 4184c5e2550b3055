-- ===== src/Prelude/Maps.antt =====
-- Go's maps with comparable keys, as association lists.
use mathlib.Core.Path.{◌≡◌, refl}
use mathlib.Core.Logic.{inl, inr}
use mathlib.Core.List.{List, [], ◌∷◌}
use mathlib.Core.Bool.{Bool, true, false, not}
use mathlib.Core.Option.{Option, none, some}
use native.Mathlib.Omega.{arith}
use ma_sinafadavi_iran.Prelude.Tests.{if◌then◌else◌, Bool-cases}
use ma_sinafadavi_iran.Prelude.Equality.{Eq, ◌==◌, ==_refl, ==→eq}
use ma_sinafadavi_iran.Prelude.Lists.{All}

module _ {ℓ κ} {K : Type ℓ} {V : Type κ} ⦃e : Eq K⦄ where
  abbrev pub find : K → List (K × V) → Option V
  find key [] = none
  find key ((k, v) ∷ m) = let rest = find key m in if k == key then some v else rest

  abbrev pub put : K → V → List (K × V) → List (K × V)
  put key value [] = (key, value) ∷ []
  put key value ((k, v) ∷ m) =
      let rest = put key value m in if k == key then (key, value) ∷ m else (k, v) ∷ rest

  -- The entries whose key passes a test.
  abbrev pub keep : (K → Bool) → List (K × V) → List (K × V)
  keep p [] = []
  keep p ((k, v) ∷ m) = let rest = keep p m in if p k then (k, v) ∷ rest else rest

  abbrev pub erase : K → List (K × V) → List (K × V)
  erase key = keep (λ k. not (k == key))

  pub find-put : (key : K) (v : V) (m : List (K × V)) → find key (put key v m) ≡ some v
  find-put key v [] = ground (arith, ==_refl key)
  find-put key v ((k, x) ∷ m) = ground (arith, ==_refl key, find-put key v m)

  pub find-put_other :
      (key other : K) (v : V) (m : List (K × V))
      → (key == other) ≡ false
      → find other (put key v m) ≡ find other m
  find-put_other key other v [] h = ground arith
  find-put_other key other v ((k, x) ∷ m) h =
      ground (arith, ==→eq k key, find-put_other key other v m h)

  pub find-keep :
      (p : K → Bool) (key : K) (m : List (K × V)) → p key ≡ true → find key (keep p m) ≡ find key m
  find-keep p key [] h = refl
  find-keep p key ((k, v) ∷ m) h = ground (arith, ==→eq k key, find-keep p key m h)

  pub find-keep_dropped :
      (p : K → Bool) (key : K) (m : List (K × V)) → p key ≡ false → find key (keep p m) ≡ none
  find-keep_dropped p key [] h = refl
  find-keep_dropped p key ((k, v) ∷ m) h = ground (arith, ==→eq k key, find-keep_dropped p key m h)

module _ {ℓ κ μ} {K : Type ℓ} {V : Type κ} ⦃e : Eq K⦄ (P : K × V → Type μ) where
  pub All-put : (key : K) (v : V) (m : List (K × V)) → P (key, v) → All P m → All P (put key v m)
  All-put key v [] new all = (new, tt)
  All-put key v ((k, x) ∷ m) new (old, all) = elim (Bool-cases (k == key)) [
    | inl same ↦ rw same (new, all)
    | inr other ↦ rw other (old, All-put key v m new all)
  ]

  pub All-keep : (p : K → Bool) (m : List (K × V)) → All P m → All P (keep p m)
  All-keep p [] all = tt
  All-keep p ((k, x) ∷ m) (old, all) = elim (Bool-cases (p k)) [
    | inl stays ↦ rw stays (old, All-keep p m all)
    | inr goes ↦ rw goes (All-keep p m all)
  ]

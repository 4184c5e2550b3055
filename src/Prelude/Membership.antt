-- ===== src/Prelude/Membership.antt =====
-- Whether a key is in a list, and whether it is in a map, as Boolean tests.
use mathlib.Core.Path.{◌≡◌}
use mathlib.Core.Logic.{inl, inr}
use mathlib.Core.List.{List, [], ◌∷◌, ◌++◌}
use mathlib.Core.Bool.{Bool, true, false, not, ◌||◌}
use mathlib.Core.Option.{Option, none, some}
use native.Mathlib.Omega.{arith}
use ma_sinafadavi_iran.Prelude.Tests.{if◌then◌else◌, Bool-cases}
use ma_sinafadavi_iran.Prelude.Equality.{Eq, ◌==◌, ==_refl, ==→eq}
use ma_sinafadavi_iran.Prelude.Lists.{any, select}
use ma_sinafadavi_iran.Prelude.Maps.{
  find, put, erase, find-put, find-put_other, find-keep, find-keep_dropped,
}

abbrev pub is_some {κ} : {V : Type κ} → Option V → Bool
is_some none = false
is_some (some _) = true

module _ {ℓ} {K : Type ℓ} ⦃inst : Eq K⦄ where
  abbrev pub is_listed : K → List K → Bool
  is_listed key = any (λ k. k == key)

  pub is_listed-append :
      (key k : K) (ks : List K) → is_listed key (ks ++ k ∷ []) ≡ (is_listed key ks || k == key)
  is_listed-append key k [] = ground arith
  is_listed-append key k (x ∷ xs) = ground (arith, is_listed-append key k xs)

  pub is_listed-select :
      (key k : K) (ks : List K)
      → is_listed key (select (λ x. not (x == k)) ks)
        ≡ (if k == key then false else is_listed key ks)
  is_listed-select key k [] = ground arith
  is_listed-select key k (x ∷ xs) = elim (Bool-cases (x == k)) [
    | inl same ↦ ground (arith, is_listed-select key k xs, ==→eq x k same)
    | inr other ↦ elim (Bool-cases (k == key)) [
      | inl here ↦ ground (arith, is_listed-select key k xs, ==→eq k key here)
      | inr there ↦ ground (arith, is_listed-select key k xs)
    ]
  ]

module _ {ℓ κ} {K : Type ℓ} {V : Type κ} ⦃inst : Eq K⦄ where
  pub is_some-put :
      (key k : K) (v : V) (m : List (K × V))
      → is_some (find key (put k v m)) ≡ (is_some (find key m) || k == key)
  is_some-put key k v m = elim (Bool-cases (k == key)) [
    | inl same ↦ ground (arith, find-put k v m, ==→eq k key same)
    | inr other ↦ ground (arith, find-put_other k key v m other)
  ]

  pub is_some-erase :
      (key k : K) (m : List (K × V))
      → is_some (find key (erase k m)) ≡ (if k == key then false else is_some (find key m))
  is_some-erase key k m = elim (Bool-cases (k == key)) [
    | inl same ↦
        ground (arith, find-keep_dropped (λ x. not (x == k)) key m, ==→eq k key same, ==_refl key)
    | inr other ↦ elim (Bool-cases (key == k)) [
      | inl back ↦ ground (arith, ==→eq key k back, ==_refl k)
      | inr apart ↦ ground (arith, find-keep (λ x. not (x == k)) key m)
    ]
  ]

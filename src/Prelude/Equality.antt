-- ===== src/Prelude/Equality.antt =====
-- Go's `==` on comparable types, as an instance with its law.
use Prim.Native.Nat.{ℕ}
use Prim.Native.String.{String}
use mathlib.Core.Path.{◌≡◌, refl}
use mathlib.Core.Logic.{◌↔◌, ◌≢◌}
use mathlib.Core.Bool.{Bool, true, false}
use native.Mathlib.Omega.{arith}
use text.Mathlib.Text.{◌==◌ as str_eq}
use text.Mathlib.TextEquality.{eq_iff}
use ma_sinafadavi_iran.Prelude.Tests.{nat_beq, nat_beq_iff}

pub record Eq {ℓ} (A : Type ℓ) : Type ℓ where
  pub same : A → A → Bool
  pub same_iff : (x y : A) → (same x y ≡ true) ↔ (x ≡ y)

abbrev pub ◌==◌ {κ} : {K : Type κ} ⦃inst : Eq K⦄ → K → K → Bool
◌==◌ ⦃inst⦄ = inst.same

infix 50 ◌==◌
instance abbrev pub string_eq : Eq String
string_eq = record { same = str_eq; same_iff = eq_iff }

instance abbrev pub nat_eq : Eq ℕ
nat_eq = record { same = nat_beq; same_iff = nat_beq_iff }

module _ {ℓ} {A : Type ℓ} ⦃e : Eq A⦄ where
  pub ==_refl : (a : A) → (a == a) ≡ true
  ==_refl a = (e.same_iff a a).1 refl

  pub ==→eq : (a b : A) → (a == b) ≡ true → a ≡ b
  ==→eq a b = (e.same_iff a b).0

  pub ne→== : (a b : A) → a ≢ b → (a == b) ≡ false
  ne→== a b h = ground (arith, (e.same_iff a b).0)

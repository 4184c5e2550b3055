-- ===== src/Cla/Manager/Lists.antt =====
-- The lists of a manager with one CLA more or less.
use ma_sinafadavi_iran.Prelude.{
  String, ◌≡◌, refl, Bool, true, false, ◌&&◌, ◌||◌, List, [], ◌∷◌, ◌++◌, arith, Bool-cases, inl,
  inr, All, string_eq, ◌==◌, if◌then◌else◌,
}
use ma_sinafadavi_iran.Cla.Manager.{Cla, Manager, has_address, without, check_present, add_if}
use ma_sinafadavi_iran.Cla.Manager.Addresses.{
  Distinct, has_address-append, Distinct-append, has_address-without_other, Distinct-without,
}

-- A CLA that is pending is in no list of its kinds.
abbrev pub Absent : List Cla → List Cla → Cla → Type 0
Absent receivers senders c =
    (c.is_receiver ≡ true → has_address c.address receivers ≡ false)
    × (c.is_sender ≡ true → has_address c.address senders ≡ false)

pub All-append_one :
    (P : Cla → Type 0) (cs : List Cla) (c : Cla) → All P cs → P c → All P (cs ++ c ∷ [])
All-append_one P [] c a p = (p, tt)
All-append_one P (x ∷ cs) c (h, a) p = (h, All-append_one P cs c a p)

pub All-without :
    (P Q : Cla → Type 0) (a : String) (cs : List Cla)
    → All P cs
    → ((c : Cla) → P c → (c.address == a) ≡ false → Q c)
    → All Q (without a cs)
All-without P Q a [] all f = tt
All-without P Q a (c ∷ cs) (p, all) f = elim (Bool-cases (c.address == a)) [
  | inl here ↦ rw here (All-without P Q a cs all f)
  | inr other ↦ rw other (f c p other, All-without P Q a cs all f)
]

pub All-middle :
    (P : Cla → Type 0) (before after : List Cla) (c : Cla) → All P (before ++ c ∷ after) → P c
All-middle P [] after c (h, all) = h
All-middle P (x ∷ before) after c (h, all) = All-middle P before after c all

pub has_address-add_if :
    (a : String) (b : Bool) (c : Cla) (cs : List Cla)
    → has_address a (add_if b c cs) ≡ (has_address a cs || (b && c.address == a))
unfolding add_if
has_address-add_if a true c cs = ground (arith, has_address-append a cs (c ∷ []))
has_address-add_if a false c cs = ground arith

pub Distinct-add_if :
    (b : Bool) (c : Cla) (cs : List Cla)
    → Distinct cs
    → (b ≡ true → has_address c.address cs ≡ false)
    → Distinct (add_if b c cs)
unfolding add_if
Distinct-add_if true c cs d h = Distinct-append cs c d (h refl)
Distinct-add_if false c cs d h = d

pub Distinct-without_if :
    (b : Bool) (a : String) (cs : List Cla)
    → Distinct cs
    → Distinct (if b then without a cs else cs)
Distinct-without_if true a cs d = Distinct-without a cs d
Distinct-without_if false a cs d = d

pub has_address-without_if :
    (b : Bool) (a x : String) (cs : List Cla)
    → has_address x cs ≡ false
    → has_address x (if b then without a cs else cs) ≡ false
has_address-without_if true a x cs h = has_address-without_other a x cs h
has_address-without_if false a x cs h = h

pub check_present-Absent :
    (m : Manager) (c : Cla)
    → check_present m c ≡ false
    → (has_address c.address m.pending_start ≡ false) × Absent m.receivers m.senders c
unfolding check_present
check_present-Absent m c h = (ground arith, (λ e. ground arith, λ e. ground arith))

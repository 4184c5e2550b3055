-- ===== src/Cla/Manager/Addresses.antt =====
-- Lists of CLAs in which no address occurs twice.
use ma_sinafadavi_iran.Prelude.{
  String, ◌≡◌, refl, false, ◌||◌, List, [], ◌∷◌, ◌++◌, string_eq, ◌==◌, ==→eq, ==_refl, arith,
  Bool-cases, inl, inr,
}
use ma_sinafadavi_iran.Cla.Manager.{Cla, has_address, without}

abbrev pub Distinct : List Cla → Type 0
Distinct [] = Unit {0}
Distinct (c ∷ cs) = (has_address c.address cs ≡ false) × Distinct cs

pub has_address-append :
    (a : String) (cs ds : List Cla)
    → has_address a (cs ++ ds) ≡ (has_address a cs || has_address a ds)
has_address-append a [] ds = refl
has_address-append a (c ∷ cs) ds = ground (arith, has_address-append a cs ds)

pub Distinct-append :
    (cs : List Cla) (c : Cla)
    → Distinct cs
    → has_address c.address cs ≡ false
    → Distinct (cs ++ c ∷ [])
Distinct-append [] c d h = (refl, tt)
Distinct-append (x ∷ cs) c (fresh, d) h = (
  ground (
    arith,
    has_address-append x.address cs (c ∷ []),
    ==→eq c.address x.address,
    ==_refl c.address,
  ),
  Distinct-append cs c d (ground arith),
)

pub has_address-without_other :
    (a b : String) (cs : List Cla) → has_address b cs ≡ false → has_address b (without a cs) ≡ false
has_address-without_other a b [] h = refl
has_address-without_other a b (c ∷ cs) h = ground (arith, has_address-without_other a b cs)

pub has_address-without : (a : String) (cs : List Cla) → has_address a (without a cs) ≡ false
has_address-without a [] = refl
has_address-without a (c ∷ cs) = ground (arith, has_address-without a cs)

pub Distinct-without : (a : String) (cs : List Cla) → Distinct cs → Distinct (without a cs)
Distinct-without a [] d = tt
Distinct-without a (c ∷ cs) (fresh, d) = elim (Bool-cases (c.address == a)) [
  | inl here ↦ rw (here) (Distinct-without a cs d)
  | inr other ↦ rw (other) (has_address-without_other a c.address cs fresh, Distinct-without a cs d)
]

-- Where nothing has the address, nothing is taken away.
pub without-absent : (a : String) (cs : List Cla) → has_address a cs ≡ false → without a cs ≡ cs
without-absent a [] h = refl
without-absent a (c ∷ cs) h = ground (arith, without-absent a cs)

-- In a list with distinct addresses the one with an address is taken away.
pub without-Distinct :
    (cs ds : List Cla) (c : Cla)
    → Distinct (cs ++ c ∷ ds)
    → without c.address (cs ++ c ∷ ds) ≡ cs ++ ds
without-Distinct [] ds c (fresh, d) =
    ground (arith, ==_refl c.address, without-absent c.address ds fresh)
without-Distinct (x ∷ cs) ds c (fresh, d) = ground (
  arith,
  without-Distinct cs ds c d,
  has_address-append x.address cs (c ∷ ds),
  ==→eq x.address c.address,
  ==_refl c.address,
)

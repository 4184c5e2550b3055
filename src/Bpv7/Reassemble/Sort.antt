-- ===== src/Bpv7/Reassemble/Sort.antt =====
-- The order in which prepareReassembly puts the fragments does not depend on how they came in.
use text.Mathlib.TextEquality.{IsScalar-prop}
use mathlib.Core.Logic.{∥∥₁_elim}
use mathlib.Core.List.{Perm, Permᴰ, Nodup, Nodup-cons, mem-cons_self}
use mathlib.Core.List.Perm
use mathlib.Core.List.Permᴰ
use ma_sinafadavi_iran.Prelude.{ℕ, ◌≡◌, ◌≢◌, refl, ap, ◌∙◌, List, [], ◌∷◌, map, arith}
use ma_sinafadavi_iran.Bpv7.Bundle.{Bundle}
use ma_sinafadavi_iran.Bpv7.Reassemble.{offset, insert_fragment, sort_fragments}

abbrev pub offsets : List Bundle → List ℕ
offsets = map offset

insert_fragment_comm :
    (a b : Bundle) (l : List Bundle)
    → offset a ≢ offset b
    → insert_fragment a (insert_fragment b l) ≡ insert_fragment b (insert_fragment a l)
unfolding insert_fragment
insert_fragment_comm a b [] h = ground arith
insert_fragment_comm a b (c ∷ cs) h = ground (arith, insert_fragment_comm a b cs h)

-- Bundles form a set, so an equation between their lists can come out of a truncation.
Bundles-set : IsSet (List Bundle)
Bundles-set = hlevel IsScalar-prop

sort_fragments-permᴰ :
    (xs ys : List Bundle) → Permᴰ xs ys → Nodup (offsets xs) → sort_fragments xs ≡ sort_fragments ys
unfolding sort_fragments
sort_fragments-permᴰ _ _ Permᴰ.nil d = refl
sort_fragments-permᴰ _ _ (Permᴰ.cons {a = a} {b = b} {l₁ = l} {l₂ = m} e p) d =
    ap (λ x. insert_fragment x (sort_fragments l)) e
    ∙ ap (insert_fragment b) (sort_fragments-permᴰ l m p (Nodup-cons.0 d).1)
sort_fragments-permᴰ _ _ (Permᴰ.swap {a = a} {b = b} {a' = a'} {b' = b'} {l = l} e f) d =
    let apart : offset a ≢ offset b = λ same. (Nodup-cons.0 d).0 (rw same mem-cons_self) in
    rw (← e, ← f) (insert_fragment_comm a b (sort_fragments l) apart)
sort_fragments-permᴰ _ _ (Permᴰ.trans {l₁ = x} {l₂ = y} {l₃ = z} p q) d =
    sort_fragments-permᴰ x y p d ∙ sort_fragments-permᴰ y z q (Perm.nodup ∣ Permᴰ.map offset p ∣₁ d)

-- Fragments of different offsets have one order.
pub sort_fragments-perm :
    {xs ys : List Bundle} → Perm xs ys → Nodup (offsets xs) → sort_fragments xs ≡ sort_fragments ys
sort_fragments-perm {xs} {ys} p d =
    ∥∥₁_elim p (Bundles-set _ _) (λ q. sort_fragments-permᴰ xs ys q d)

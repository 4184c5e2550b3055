-- ===== src/IdKeeper/Uniqueness.antt =====
-- The sequence numbers that an IdKeeper gives, and what Clean forgets.
use ma_sinafadavi_iran.Prelude.{
  ℕ, suc, ◌^◌, ◌≤◌, ◌<◌, ◌≡◌, ◌≢◌, ◌⊎◌, inl, inr, ap, sym, subst, ◌∙◌, not, some, List, [], ◌∷◌,
  arith, length, All, Bool-cases, Option-cases, ◌==◌, ==→eq, ltb, find, put, find-put,
  find-put_other, find-keep, find-keep_dropped,
}
use ma_sinafadavi_iran.Bpv7.Bundle.{Bundle}
use ma_sinafadavi_iran.IdKeeper.{
  Keeper, IdTuple, tuple_eq, new_id_tuple, next_number, with_sequence_number, update, clean,
}

-- What a keeper has done: the threshold of its last Clean, its data, and the bundles with the numbers
-- that it gave them, the latest first. A bundle is not created before the threshold of an earlier Clean,
-- and the thresholds do not go back.
pub data Issued : ℕ → Keeper → List Bundle → Type 0 where
  initialised : Issued 0 [] []
  updated :
      {t : ℕ} {k : Keeper} {bs : List Bundle} (b : Bundle)
      → t ≤ (new_id_tuple b).time
      → Issued t k bs
      → Issued t (update k b).0 ((update k b).1 ∷ bs)
  cleaned :
      {t : ℕ} {k : Keeper} {bs : List Bundle} (t' : ℕ)
      → t ≤ t'
      → Issued t k bs
      → Issued t' (clean t' k) bs

abbrev pub sequence_number : Bundle → ℕ
sequence_number b = b.primary_block.creation_timestamp.sequence_number

-- The part of a bundle's id that the keeper is there for.
abbrev pub identity : Bundle → IdTuple × ℕ
identity b = (new_id_tuple b, sequence_number b)

abbrev pub Distinct : List Bundle → Type 0
Distinct [] = Unit
Distinct (b ∷ bs) = All (λ c. identity b ≢ identity c) bs × Distinct bs

-- A bundle that was given a number is too old to matter, or the keeper remembers its number or a later one.
abbrev Remembered : ℕ → Keeper → Bundle → Type 0
Remembered t k c =
    ((new_id_tuple c).time < t)
    ⊎ ((s : ℕ) × (find (new_id_tuple c) k ≡ some s) × (sequence_number c ≤ s))

abbrev Bounded : Keeper → ℕ → Type 0
Bounded k n = (tuple : IdTuple) (s : ℕ) → find tuple k ≡ some s → s < n

remember_put :
    (t : ℕ) (k : Keeper) (tuple : IdTuple) (n : ℕ) (bs : List Bundle)
    → ((s : ℕ) → find tuple k ≡ some s → s ≤ n)
    → All (Remembered t k) bs
    → All (Remembered t (put tuple n k)) bs
remember_put t k tuple n [] h old = tt
remember_put t k tuple n (c ∷ cs) h (inl early, olds) =
    (inl early, remember_put t k tuple n cs h olds)
remember_put t k tuple n (c ∷ cs) h (inr (s, e, le), olds) = (
  elim (Bool-cases (tuple == new_id_tuple c)) [
    | inl same ↦ inr (
      n,
      subst (λ u. find u (put tuple n k) ≡ some n) (==→eq tuple (new_id_tuple c) same)
          (find-put tuple n k),
      omega
          (arith, h s (subst (λ u. find u k ≡ some s) (sym (==→eq tuple (new_id_tuple c) same)) e)),
    )
    | inr other ↦ inr (s, find-put_other tuple (new_id_tuple c) n k other ∙ e, le)
  ],
  remember_put t k tuple n cs h olds,
)

remember_clean :
    (t t' : ℕ) (k : Keeper) (bs : List Bundle)
    → t ≤ t'
    → All (Remembered t k) bs
    → All (Remembered t' (clean t' k)) bs
unfolding clean
remember_clean t t' k [] h old = tt
remember_clean t t' k (c ∷ cs) h (inl early, olds) =
    (inl (omega arith), remember_clean t t' k cs h olds)
remember_clean t t' k (c ∷ cs) h (inr (s, e, le), olds) = (
  elim (Bool-cases (ltb (new_id_tuple c).time t')) [
    | inl early ↦ inl (ground arith)
    | inr late ↦
        inr (s, find-keep (λ u. not (ltb u.time t')) (new_id_tuple c) k (ap not late) ∙ e, le)
  ],
  remember_clean t t' k cs h olds,
)

next_number-later :
    (k : Keeper) (tuple : IdTuple) (n : ℕ)
    → Bounded k n
    → n < 2 ^ 64
    → ((s : ℕ) → find tuple k ≡ some s → s < next_number (find tuple k))
      × (next_number (find tuple k) ≤ n)
unfolding next_number
next_number-later k tuple n bounded h = elim (Option-cases (find tuple k)) [
  | inl e ↦ rw e ((λ s p. cc), omega arith)
  | inr (v, e) ↦ let low = bounded tuple v e in rw e ((λ s p. ground arith), ground arith)
]

Bounded-put :
    (k : Keeper) (tuple : IdTuple) (n m : ℕ) → n ≤ m → Bounded k m → Bounded (put tuple n k) (suc m)
Bounded-put k tuple n m h bounded u s e = elim (Bool-cases (tuple == u)) [
  | inl same ↦
      let found : find u (put tuple n k) ≡ some n =
        subst (λ v. find v (put tuple n k) ≡ some n) (==→eq tuple u same) (find-put tuple n k) in
      ground arith
  | inr other ↦ let low = bounded u s (sym (find-put_other tuple u n k other) ∙ e) in omega arith
]

Bounded-clean : (t : ℕ) (k : Keeper) (m : ℕ) → Bounded k m → Bounded (clean t k) m
unfolding clean
Bounded-clean t k m bounded u s e = elim (Bool-cases (ltb u.time t)) [
  | inl early ↦ let gone = find-keep_dropped (λ v. not (ltb v.time t)) u k (ap not early) in cc
  | inr late ↦ bounded u s (sym (find-keep (λ v. not (ltb v.time t)) u k (ap not late)) ∙ e)
]

new_identity :
    (t : ℕ) (k : Keeper) (b : Bundle) (n : ℕ) (bs : List Bundle)
    → t ≤ (new_id_tuple b).time
    → ((s : ℕ) → find (new_id_tuple b) k ≡ some s → s < n)
    → All (Remembered t k) bs
    → All (λ c. identity (with_sequence_number b n) ≢ identity c) bs
unfolding with_sequence_number
new_identity t k b n [] young later old = tt
new_identity t k b n (c ∷ cs) young later (inl early, olds) = (
  (λ same. absurd (omega (arith, ap (λ (i : IdTuple × ℕ). i.0.time) same))),
  new_identity t k b n cs young later olds,
)
new_identity t k b n (c ∷ cs) young later (inr (s, e, le), olds) = (
  (λ same.
      let tuple : new_id_tuple b ≡ new_id_tuple c = ap (λ (i : IdTuple × ℕ). i.0) same in
      let number : n ≡ sequence_number c = ap (λ (i : IdTuple × ℕ). i.1) same in
      absurd (omega (arith, later s (subst (λ u. find u k ≡ some s) (sym tuple) e)))),
  new_identity t k b n cs young later olds,
)

Issued-invariant :
    (t : ℕ) (k : Keeper) (bs : List Bundle)
    → Issued t k bs
    → length bs ≤ 2 ^ 64
    → All (Remembered t k) bs × Bounded k (length bs) × Distinct bs
unfolding update
Issued-invariant t k bs initialised h = (tt, (λ tuple s e. cc), tt)
Issued-invariant t k _ (updated {k = k'} {bs = bs'} b young before) h =
    let (old, bounded, distinct) = Issued-invariant t k' bs' before (omega arith) in
    let (later, low) = next_number-later k' (new_id_tuple b) (length bs') bounded (omega arith) in
    let n = next_number (find (new_id_tuple b) k') in
    (
      (
        inr (n, find-put (new_id_tuple b) n k', omega arith),
        remember_put t k' (new_id_tuple b) n bs' (λ s e. omega (arith, later s e)) old,
      ),
      Bounded-put k' (new_id_tuple b) n (length bs') low bounded,
      (new_identity t k' b n bs' young later old, distinct),
    )
Issued-invariant _ k bs (cleaned {t = t'} {k = k'} t le before) h =
    let (old, bounded, distinct) = Issued-invariant t' k' bs before h in
    (remember_clean t' t k' bs le old, Bounded-clean t k' (length bs) bounded, distinct)

-- As long as no bundle is created before the threshold of an earlier Clean, the thresholds do not go
-- back, and at most 2 ^ 64 bundles are updated, no two of the updated bundles have the same source,
-- creation time and sequence number, whatever sources and times they have.
pub update-Distinct :
    (t : ℕ) (k : Keeper) (bs : List Bundle) → Issued t k bs → length bs ≤ 2 ^ 64 → Distinct bs
update-Distinct t k bs issued h = (Issued-invariant t k bs issued h).2

-- A bundle that is created before the threshold of a Clean, with creation time 0 for one, gets the
-- sequence number 0 after it, whatever numbers its source has used at that time.
pub clean_restarts :
    (threshold : ℕ) (k : Keeper) (b : Bundle)
    → (new_id_tuple b).time < threshold
    → (update (clean threshold k) b).1 ≡ with_sequence_number b 0
unfolding update clean next_number
clean_restarts threshold k b early =
    rw (find-keep_dropped (λ u. not (ltb u.time threshold)) (new_id_tuple b) k (ground arith))

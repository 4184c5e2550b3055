-- ===== src/Bpv7/Reassemble/RoundTrip.antt =====
-- Reassembly undoes fragmentation, in whatever order the fragments arrive.
use Prim.Native.Nat.{min}
use mathlib.Core.List.{Nodup, Nodup-cons, Nodup-nil, Mem, mem-cons, not-mem-nil}
use native.Mathlib.Bridge.{le_prop}
use mathlib.Core.Logic.Or
use ma_sinafadavi_iran.Prelude.{
  ℕ, ◌+◌, ◌-◌, ◌%◌, ◌^◌, ◌≤◌, ◌<◌, ◌++◌, ◌≡◌, refl, ap, ◌∙◌, subst, true, false, List, [], ◌∷◌,
  arith, ltb, leb, length, take, take-add, take-all,
}
use ma_sinafadavi_iran.Bpv7.Outcome.{ok}
use ma_sinafadavi_iran.Bpv7.Block.{CanonicalBlock}
use ma_sinafadavi_iran.Bpv7.Bundle.{Bundle}
use ma_sinafadavi_iran.Bpv7.Fragment.{cut}
use ma_sinafadavi_iran.Bpv7.Fragment.Cover.{IsPiece, Covers, done, piece}
use ma_sinafadavi_iran.Bpv7.Fragment.Piece.{
  length-cut, piece-offset, piece-total, piece-is_fragment, piece-payload_data,
}
use ma_sinafadavi_iran.Bpv7.Reassemble.{
  offset, insert_fragment, sort_fragments, scan_fragments, merge_loop, check_total,
}
use ma_sinafadavi_iran.Bpv7.Reassemble.Sort.{offsets}

-- Where the pieces from offset `i` on start: at the end, if `i` lies past it.
abbrev reached : List ℕ → ℕ → ℕ
reached bytes i = min i (length bytes)

take-cut :
    (bytes : List ℕ) (i n : ℕ)
    → i < length bytes
    → take (reached bytes i) bytes ++ cut bytes i n ≡ take (reached bytes (i + n)) bytes
unfolding cut
take-cut bytes i n h =
    let k : ℕ = min (i + n) (length bytes) - i in
    let here : reached bytes i ≡ i = omega arith in
    let there : i + k ≡ reached bytes (i + n) = omega arith in
    rw here (take-add i k bytes ∙ ap (λ (m : ℕ). take m bytes) there)

module _ {b : Bundle} {cb : CanonicalBlock} {bytes : List ℕ} (small : length bytes < 2 ^ 63) where
  piece-at :
      {i n : ℕ} {frag : Bundle} → IsPiece b cb bytes i n frag → i < length bytes → offset frag ≡ i
  piece-at p h = omega (arith, piece-offset p)

  insert_first :
      {i : ℕ} {frags : List Bundle} (frag : Bundle)
      → Covers b cb bytes i frags
      → offset frag < i
      → insert_fragment frag frags ≡ frag ∷ frags
  unfolding insert_fragment
  insert_first frag (done h) lt = refl
  insert_first frag (piece n g h p rest) lt = ground (arith, piece-at p h)

  -- The fragments come out of the loop in the order of their offsets.
  pub sort-Covers :
      {i : ℕ} {frags : List Bundle} → Covers b cb bytes i frags → sort_fragments frags ≡ frags
  unfolding sort_fragments
  sort-Covers (done h) = refl
  sort-Covers (piece n frag h p rest) =
      ap (insert_fragment frag) (sort-Covers rest)
      ∙ insert_first frag rest (omega (arith, piece-at p h, p.advances))

  -- A fragment ends where the next one starts.
  piece-end :
      {i n : ℕ} {frag : Bundle}
      → IsPiece b cb bytes i n frag
      → i < length bytes
      → (offset frag + length (cut bytes i n)) % 2 ^ 64 ≡ reached bytes (i + n)
  piece-end {i} {n} p h = omega (arith, length-cut bytes i n h, piece-at p h)

  scan-Covers :
      {i : ℕ} {frags : List Bundle}
      → Covers b cb bytes i frags
      → scan_fragments (reached bytes i) frags ≡ ok (length bytes)
  unfolding scan_fragments
  scan-Covers {i} (done h) = ap ok (let e : reached bytes i ≡ length bytes = omega arith in e)
  scan-Covers {i} (piece n frag h p rest) =
      let no_gap : ltb (reached bytes i) (offset frag) ≡ false = ground (arith, piece-at p h) in
      rw (piece-is_fragment p, no_gap, piece-payload_data p, piece-end p h) (scan-Covers rest)

  merge-Covers :
      {i : ℕ} {frags : List Bundle}
      → Covers b cb bytes i frags
      → merge_loop (reached bytes i) (take (reached bytes i) bytes) frags ≡ ok bytes
  unfolding merge_loop
  merge-Covers {i} (done h) = ap ok (take-all (reached bytes i) bytes (omega arith))
  merge-Covers {i} (piece n frag h p rest) =
      let start : (reached bytes i + 2 ^ 64 - offset frag) % 2 ^ 64 ≡ 0 =
        omega (arith, piece-at p h) in
      let starts : leb 0 (length (cut bytes i n)) ≡ true = ground arith in
      rw (piece-payload_data p, start, piece-end p h, take-cut bytes i n h, starts)
        (merge-Covers rest)

  offset-above :
      {i : ℕ} {frags : List Bundle} (x : ℕ)
      → Covers b cb bytes i frags
      → Mem x (offsets frags)
      → i ≤ x
  offset-above x (done h) m = absurd (not-mem-nil m)
  offset-above x (piece n frag h p rest) m =
      Or.elim le_prop (mem-cons.0 m) (λ e. omega (arith, piece-at p h, e))
        (λ t. omega (arith, offset-above x rest t))

  -- No two fragments have one offset.
  pub Covers-Nodup :
      {i : ℕ} {frags : List Bundle} → Covers b cb bytes i frags → Nodup (offsets frags)
  Covers-Nodup (done h) = Nodup-nil
  Covers-Nodup (piece n frag h p rest) = Nodup-cons.1 (
    (λ m. omega (arith, piece-at p h, p.advances, offset-above (offset frag) rest m)),
    Covers-Nodup rest,
  )

  pub total-Covers :
      {i : ℕ} (frag : Bundle) (frags : List Bundle)
      → Covers b cb bytes i (frag ∷ frags)
      → check_total (frag ∷ frags) (length bytes) ≡ ok (frag ∷ frags)
  unfolding check_total
  total-Covers frag frags (piece n _ h p rest) = ground (arith, piece-total p)

  pub scan-Covers_start :
      {frags : List Bundle} → Covers b cb bytes 0 frags → scan_fragments 0 frags ≡ ok (length bytes)
  scan-Covers_start {frags} c =
      subst (λ (last : ℕ). scan_fragments last frags ≡ ok (length bytes)) (omega arith)
        (scan-Covers c)

  pub merge-Covers_start :
      {frags : List Bundle} → Covers b cb bytes 0 frags → merge_loop 0 [] frags ≡ ok bytes
  merge-Covers_start {frags} c =
      subst (λ (last : ℕ). merge_loop last (take last bytes) frags ≡ ok bytes) (omega arith)
        (merge-Covers c)

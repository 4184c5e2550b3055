-- ===== src/Bpv7/Fragment/Adjacent.antt =====
-- The payloads and the primary blocks of the fragments that Bundle.Fragment makes.
use Prim.Native.Nat.{min}
use ma_sinafadavi_iran.Prelude.{
  ℕ, zero, suc, ◌+◌, ◌-◌, ◌^◌, ◌<◌, ◌≡◌, ◌⊎◌, inl, inr, refl, ap, sym, subst, true, some, List, [],
  ◌∷◌, ◌++◌, arith, length, take, drop, drop-all, take-append-drop,
}
use Prim.Native.Nat.add
use ma_sinafadavi_iran.Bpv7.Env.{Env}
use ma_sinafadavi_iran.Bpv7.Outcome.{ok}
use ma_sinafadavi_iran.Bpv7.Flags.{has, is_fragment}
use ma_sinafadavi_iran.Bpv7.Primary.{PrimaryBlock}
use ma_sinafadavi_iran.Bpv7.Block.{CanonicalBlock, payload_block}
use ma_sinafadavi_iran.Bpv7.Bundle.{Bundle}
use ma_sinafadavi_iran.Bpv7.Fragment.{
  fragment, fragment_primary, fragment_payload, cut, payload_data, payload_of, value_data,
}
use ma_sinafadavi_iran.Bpv7.Fragment.Cover.{IsPiece, Covers, done, piece, fragment-Covers}
use ma_sinafadavi_iran.Bpv7.Fragment.Piece.{
  length-cut, piece-offset, piece-total, piece-is_fragment,
}

-- A bundle with the source, destination and times of another, as a fragment of it: `bytes` are what its
-- payload has, and they start at an offset of a payload with the total length.
pub record IsFragmentAt (b : Bundle) (total offset : ℕ) (bytes : List ℕ) (frag : Bundle)
    : Type 0 where
  pub flagged : has frag.primary_block.bundle_control_flags is_fragment ≡ true
  pub starts : frag.primary_block.fragment_offset ≡ offset
  pub of_total : frag.primary_block.total_data_length ≡ total
  pub same_source : frag.primary_block.source_node ≡ b.primary_block.source_node
  pub same_destination : frag.primary_block.destination ≡ b.primary_block.destination
  pub same_report_to : frag.primary_block.report_to ≡ b.primary_block.report_to
  pub same_time : frag.primary_block.creation_timestamp ≡ b.primary_block.creation_timestamp
  pub same_lifetime : frag.primary_block.lifetime ≡ b.primary_block.lifetime
  pub carries : (cb : CanonicalBlock) × (frag.payload ≡ some cb) × (cb.value ≡ payload_block bytes)
  pub nonempty : 0 < length bytes

-- Fragments that carry the bytes from an offset on, piece by piece.
pub data AreAdjacent (b : Bundle) (total : ℕ) : ℕ → List ℕ → List Bundle → Type 0 where
  nothing_left : {offset : ℕ} → AreAdjacent b total offset [] []
  next_piece :
      {offset : ℕ} {rest : List ℕ} {frags : List Bundle} (bytes : List ℕ) (frag : Bundle)
      → IsFragmentAt b total offset bytes frag
      → AreAdjacent b total (offset + length bytes) rest frags
      → AreAdjacent b total offset (bytes ++ rest) (frag ∷ frags)

take_from-drop :
    (i k : ℕ) (bytes : List ℕ) → take k (drop i bytes) ++ drop (i + k) bytes ≡ drop i bytes
take_from-drop zero k bytes = rw add.zero (take-append-drop k bytes)
take_from-drop (suc i) zero [] = rw add.suc refl
take_from-drop (suc i) (suc k) [] = rw add.suc refl
take_from-drop (suc i) k (x ∷ bytes) = rw add.suc (take_from-drop i k bytes)

-- A piece, and what is behind it.
cut_before-drop :
    (bytes : List ℕ) (i n : ℕ)
    → i < length bytes
    → cut bytes i n ++ drop (min (i + n) (length bytes)) bytes ≡ drop i bytes
unfolding cut
cut_before-drop bytes i n h =
    let k : ℕ = min (i + n) (length bytes) - i in
    let there : i + k ≡ min (i + n) (length bytes) = omega arith in
    subst (λ m. take k (drop i bytes) ++ drop m bytes ≡ drop i bytes) there
      (take_from-drop i k bytes)

payload_data-value :
    (b : Bundle) (cb : CanonicalBlock) (bytes : List ℕ)
    → b.payload ≡ some cb
    → cb.value ≡ payload_block bytes
    → payload_data b ≡ ok (cb, bytes)
unfolding payload_data payload_of value_data
payload_data-value b cb bytes p v = simp (p, v)

module _ {b : Bundle} {cb : CanonicalBlock} {bytes : List ℕ} (small : length bytes < 2 ^ 63) where
  piece-IsFragmentAt :
      {i n : ℕ} {frag : Bundle}
      → IsPiece b cb bytes i n frag
      → i < length bytes
      → IsFragmentAt b (length bytes) i (cut bytes i n) frag
  unfolding fragment_primary fragment_payload
  piece-IsFragmentAt {i} {n} p h = record {
    flagged = piece-is_fragment p;
    starts = omega (arith, piece-offset p);
    of_total = omega (arith, piece-total p);
    same_source = ap (λ (pb : PrimaryBlock). pb.source_node) p.primary;
    same_destination = ap (λ (pb : PrimaryBlock). pb.destination) p.primary;
    same_report_to = ap (λ (pb : PrimaryBlock). pb.report_to) p.primary;
    same_time = ap (λ (pb : PrimaryBlock). pb.creation_timestamp) p.primary;
    same_lifetime = ap (λ (pb : PrimaryBlock). pb.lifetime) p.primary;
    carries = (fragment_payload cb (cut bytes i n), p.payload, refl);
    nonempty = omega (arith, length-cut bytes i n h, p.advances);
  }

  Covers-AreAdjacent :
      {i : ℕ} {frags : List Bundle}
      → Covers b cb bytes i frags
      → AreAdjacent b
          (length bytes)
          (min i (length bytes))
          (drop (min i (length bytes)) bytes)
          frags
  Covers-AreAdjacent {i} (done h) =
      subst (λ rest. AreAdjacent b (length bytes) (min i (length bytes)) rest [])
        (sym (drop-all (min i (length bytes)) bytes (omega arith))) nothing_left
  Covers-AreAdjacent {i} (piece {frags = others} n frag h p rest) =
      let here : min i (length bytes) ≡ i = omega arith in
      let k = length (cut bytes i n) in
      let there : i + k ≡ min (i + n) (length bytes) = omega (arith, length-cut bytes i n h) in
      let back : cut bytes i n ++ drop (i + k) bytes ≡ drop i bytes =
        rw there (cut_before-drop bytes i n h) in
      let later : AreAdjacent b (length bytes) (i + k) (drop (i + k) bytes) others =
        rw there (Covers-AreAdjacent rest) in
      rw here (
        subst (λ left. AreAdjacent b (length bytes) i left (frag ∷ others)) back
          (next_piece (cut bytes i n) frag (piece-IsFragmentAt p h) later))

-- Where Fragment succeeds on a bundle whose payload has less than 2 ^ 63 bytes, it returns that bundle alone,
-- or fragments: each is flagged as one, carries some bytes, at least one, has the offset at which they start
-- and the length of the whole payload, and has the source, destination, report-to endpoint, creation time and
-- lifetime of the bundle; the bytes of the fragments, in their order, make up the payload.
pub fragment-AreAdjacent :
    (env : Env) (now : ℕ) (b : Bundle) (mtu : ℕ) (cb : CanonicalBlock) (bytes : List ℕ)
    (frags : List Bundle)
    → b.payload ≡ some cb
    → cb.value ≡ payload_block bytes
    → length bytes < 2 ^ 63
    → fragment env now b mtu ≡ ok frags
    → (frags ≡ b ∷ []) ⊎ AreAdjacent b (length bytes) 0 bytes frags
fragment-AreAdjacent env now b mtu cb bytes frags has_payload has_bytes small h =
    elim (fragment-Covers env now b mtu (payload_data-value b cb bytes has_payload has_bytes) h) [
      | inl alone ↦ inl alone
      | inr c ↦
          let start : min 0 (length bytes) ≡ 0 = omega arith in
          inr (rw start at (Covers-AreAdjacent small c))
    ]

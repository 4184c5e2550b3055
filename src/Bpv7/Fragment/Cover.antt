-- ===== src/Bpv7/Fragment/Cover.antt =====
-- The loop of Bundle.Fragment, fragment by fragment, with what `cut` and `fragment_primary` give for each.
use ma_sinafadavi_iran.Prelude.{
  ℕ, zero, suc, ◌+◌, ◌-◌, ◌≤◌, ◌<◌, ◌≡◌, ◌⊎◌, refl, sym, ap, ◌∙◌, subst, none, some, List, [], ◌∷◌,
  arith, Bool-cases, nat_beq, ltb, leb, length, inl, inr, if◌then◌else◌,
}
use ma_sinafadavi_iran.Bpv7.Env.{Env}
use ma_sinafadavi_iran.Bpv7.Outcome.{
  Outcome, ok, err, fragmentation_forbidden, overhead_exceeds_mtu, >>=-eq-ok,
}
use ma_sinafadavi_iran.Bpv7.Flags.{has, must_not_fragmented}
use ma_sinafadavi_iran.Bpv7.Primary.{PrimaryBlock, marshal_primary}
use ma_sinafadavi_iran.Bpv7.Primary.Marshal.{without_crc, marshal_primary-without_crc}
use ma_sinafadavi_iran.Bpv7.Block.{CanonicalBlock}
use ma_sinafadavi_iran.Bpv7.Bundle.{Bundle, must_new_bundle, add_extension_block}
use ma_sinafadavi_iran.Bpv7.Bundle.Valid.{check_valid}
use ma_sinafadavi_iran.Bpv7.Fragment.{
  fragment_primary, fragment_primary_block, fragment_payload, cut, add_blocks, fragment_at,
  fragment_rest, fragment_bundle, checked, fragment_loop, fragment, payload_data,
  fragment_payload_loop, fragment_extension_blocks_len,
}

-- `frag` is the fragment that carries `n` bytes of the payload from offset `i` on.
pub record IsPiece (b : Bundle) (cb : CanonicalBlock) (bytes : List ℕ) (i n : ℕ) (frag : Bundle)
    : Type 0 where
  pub primary : without_crc frag.primary_block ≡ fragment_primary b.primary_block i (length bytes)
  pub payload : frag.payload ≡ some (fragment_payload cb (cut bytes i n))
  pub advances : 0 < n

-- `frags` are the pieces from offset `i` to the end of the payload.
pub data Covers (b : Bundle) (cb : CanonicalBlock) (bytes : List ℕ) : ℕ → List Bundle → Type 0 where
  done : {i : ℕ} → length bytes ≤ i → Covers b cb bytes i []
  piece :
      {i : ℕ} {frags : List Bundle} (n : ℕ) (frag : Bundle)
      → i < length bytes
      → IsPiece b cb bytes i n frag
      → Covers b cb bytes (i + n) frags
      → Covers b cb bytes i (frag ∷ frags)

pub checked-eq-ok :
    (env : Env) (now : ℕ) (frag : Bundle) {g : Bundle}
    → checked env now frag ≡ ok g
    → (g ≡ frag) × (check_valid env now frag ≡ ok [])
unfolding checked
checked-eq-ok env now frag h = ground arith

add_blocks-primary :
    (i : ℕ) (frag : Bundle) (cbs : List CanonicalBlock)
    → (add_blocks i frag cbs).primary_block ≡ frag.primary_block
unfolding add_blocks add_extension_block
add_blocks-primary i frag [] = refl
add_blocks-primary i frag (cb ∷ cbs) =
    ground
      (arith, add_blocks-primary i frag cbs, add_blocks-primary i (add_extension_block frag cb) cbs)

fragment_bundle-IsPiece :
    (b : Bundle) (cb : CanonicalBlock) (bytes : List ℕ) (i n : ℕ) (pb : PrimaryBlock)
    → without_crc pb ≡ fragment_primary b.primary_block i (length bytes)
    → 0 < n
    → IsPiece b cb bytes i n (fragment_bundle b cb bytes i n pb)
unfolding fragment_bundle must_new_bundle
fragment_bundle-IsPiece b cb bytes i n pb p h = record {
  primary =
      ap without_crc (add_blocks-primary i (must_new_bundle pb [] none) b.extension_blocks) ∙ p;
  payload = refl;
  advances = h;
}

module _ (env : Env) (now : ℕ) (b : Bundle) (mtu : ℕ) (cb : CanonicalBlock) (bytes : List ℕ) where
  fragment_primary_block-without_crc :
      (i : ℕ) {r : PrimaryBlock × ℕ}
      → fragment_primary_block env b.primary_block i (length bytes) ≡ ok r
      → without_crc r.0 ≡ fragment_primary b.primary_block i (length bytes)
  unfolding fragment_primary_block
  fragment_primary_block-without_crc i {r} h =
      let pb = fragment_primary b.primary_block i (length bytes) in
      let (m, e, f) = >>=-eq-ok (marshal_primary env pb) _ {b = r} h in
      let same : r.0 ≡ m.0 = ground arith in
      ap without_crc same ∙ marshal_primary-without_crc env pb {r = m} e

  fragment_rest-IsPiece :
      (overheads : ℕ × ℕ) (i : ℕ) (primary : PrimaryBlock × ℕ) {r : Bundle × ℕ}
      → without_crc primary.0 ≡ fragment_primary b.primary_block i (length bytes)
      → fragment_rest env now b mtu cb bytes overheads i primary ≡ ok r
      → IsPiece b cb bytes i r.1 r.0
  unfolding fragment_rest
  fragment_rest-IsPiece (first, others) i (pb, primary) {r} p h =
      let overhead = 2 + primary + (if nat_beq i 0 then first else others) in
      elim (Bool-cases (leb mtu overhead)) [
        | inl big ↦
            let bad : ◌≡◌ {A = Outcome (Bundle × ℕ)} (err (overhead_exceeds_mtu i)) (ok r) =
              rw big at h in
            cc
        | inr fits ↦
            let (g, e, f) =
              >>=-eq-ok (checked env now (fragment_bundle b cb bytes i (mtu - overhead) pb)) _
                {b = r} (rw fits at h) in
            let pair : Bundle × ℕ = (g, mtu - overhead) in
            let same : pair ≡ r = cc in
            let valid =
              checked-eq-ok env now (fragment_bundle b cb bytes i (mtu - overhead) pb) {g = g} e in
            let whole = fragment_bundle-IsPiece b cb bytes i (mtu - overhead) pb p (ground arith) in
            subst (λ (q : Bundle × ℕ). IsPiece b cb bytes i q.1 q.0) same
              (subst (λ (x : Bundle). IsPiece b cb bytes i (mtu - overhead) x) (sym valid.0) whole)
      ]

  pub fragment_at-IsPiece :
      (overheads : ℕ × ℕ) (i : ℕ) {r : Bundle × ℕ}
      → fragment_at env now b mtu cb bytes overheads i ≡ ok r
      → IsPiece b cb bytes i r.1 r.0
  unfolding fragment_at
  fragment_at-IsPiece overheads i {r} h =
      let (m, e, f) =
        >>=-eq-ok (fragment_primary_block env b.primary_block i (length bytes))
          (fragment_rest env now b mtu cb bytes overheads i) {b = r} h in
      fragment_rest-IsPiece overheads i m {r = r} (fragment_primary_block-without_crc i {r = m} e) f

  pub fragment_loop-Covers :
      (overheads : ℕ × ℕ) (fuel i : ℕ) (frags : List Bundle)
      → fragment_loop (fragment_at env now b mtu cb bytes overheads) (length bytes) fuel i
        ≡ ok frags
      → Covers b cb bytes i frags
  unfolding fragment_loop
  fragment_loop-Covers overheads zero i frags h = cc
  fragment_loop-Covers overheads (suc fuel) i frags h = elim (Bool-cases (ltb i (length bytes))) [
    | inl more ↦
        let (m, e, f) =
          >>=-eq-ok (fragment_at env now b mtu cb bytes overheads i) _ {b = frags}
            (rw (more, fragment_loop) at h) in
        let (rest, e', f') =
          >>=-eq-ok
            (fragment_loop (fragment_at env now b mtu cb bytes overheads) (length bytes) fuel
              (i + m.1))
            _ {b = frags} f in
        let start = fragment_at-IsPiece overheads i {r = m} e in
        let tail = fragment_loop-Covers overheads fuel (i + m.1) rest e' in
        subst (λ (x : List Bundle). Covers b cb bytes i x) (ground arith)
          (piece m.1 m.0 (ground arith) start tail)
    | inr over ↦
        subst (λ (x : List Bundle). Covers b cb bytes i x)
          (let e : ◌≡◌ {A = Outcome (List Bundle)} (ok []) (ok frags) =
              rw (over, fragment_loop) at h in
            cc)
          (done (ground arith))
  ]

  pub fragment_payload_loop-Covers :
      (frags : List Bundle)
      → fragment_payload_loop env now b mtu (cb, bytes) ≡ ok frags
      → Covers b cb bytes 0 frags
  unfolding fragment_payload_loop
  fragment_payload_loop-Covers frags h =
      let (overheads, _, e) = >>=-eq-ok (fragment_extension_blocks_len env b mtu) _ {b = frags} h in
      fragment_loop-Covers overheads (suc (length bytes)) 0 frags e

-- Where `fragment` succeeds on a bundle with a payload, it returns that bundle alone, or fragments whose
-- payloads are not empty and are the adjacent pieces of the payload from its first byte to its last, each
-- with the primary block of a fragment at the piece's offset.
pub fragment-Covers :
    (env : Env) (now : ℕ) (b : Bundle) (mtu : ℕ) {cb : CanonicalBlock} {bytes : List ℕ}
    {frags : List Bundle}
    → payload_data b ≡ ok (cb, bytes)
    → fragment env now b mtu ≡ ok frags
    → (frags ≡ b ∷ []) ⊎ Covers b cb bytes 0 frags
unfolding fragment
fragment-Covers env now b mtu {cb} {bytes} {frags} d h =
    elim (Bool-cases (has b.primary_block.bundle_control_flags must_not_fragmented)) [
      | inl forbidden ↦
          let bad : ◌≡◌ {A = Outcome (List Bundle)} (err fragmentation_forbidden) (ok frags) =
            rw forbidden at h in
          cc
      | inr allowed ↦
          let (payload, e, f) = >>=-eq-ok (payload_data b) _ {b = frags} (rw allowed at h) in
          let (bs, e', f') =
            >>=-eq-ok (fragment_payload_loop env now b mtu payload) _ {b = frags} f in
          let same : payload ≡ (cb, bytes) = ground arith in
          let covers = fragment_payload_loop-Covers env now b mtu cb bytes bs (
            subst (λ (q : CanonicalBlock × List ℕ). fragment_payload_loop env now b mtu q ≡ ok bs)
              same e') in
          elim (Bool-cases (nat_beq (length bs) 1)) [
            | inl one ↦ inl (ground arith)
            | inr more ↦
                inr (subst (λ (x : List Bundle). Covers b cb bytes 0 x) (ground arith) covers)
          ]
    ]

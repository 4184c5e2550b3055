-- ===== src/Bpv7/Decode/Bundle/RoundTrip.antt =====
-- ParseBundle on what Bundle.MarshalCbor wrote.
use mathlib.Core.Option.{map as option_map}
use ma_sinafadavi_iran.Prelude.{
  ℕ, zero, suc, ◌<◌, ◌≡◌, refl, ap, subst, ◌∙◌, Bool, true, false, none, some, List, [], ◌∷◌, ◌++◌,
  map, select, nat_beq, length, All, append_assoc, append-nil, arith,
}
use ma_sinafadavi_iran.Bpv7.Env.{Env}
use ma_sinafadavi_iran.Bpv7.Outcome.{ok, err, wrap, flag_break_code, >>=-eq-ok, wrap-eq-ok}
use ma_sinafadavi_iran.Bpv7.Primary.{PrimaryBlock, marshal_primary}
use ma_sinafadavi_iran.Bpv7.Block.{
  ExtensionBlock, payload_block, previous_node_block, bundle_age_block, hop_count_block,
  binary_spray_block, rec_bundle_type_block, generic_extension_block, CanonicalBlock,
  block_type_code, type_code, type_payload, canonical_head, append_crc, marshal_canonical,
}
use ma_sinafadavi_iran.Bpv7.Bundle.{Bundle, extension_blocks_by_type}
use ma_sinafadavi_iran.Bpv7.Decode.{Reader}
use ma_sinafadavi_iran.Bpv7.Decode.Laws.{Inverse, Progress}
use ma_sinafadavi_iran.Bpv7.Decode.Within.{Within-rest}
use ma_sinafadavi_iran.Bpv7.Decode.Primary.RoundTrip.{
  IsDecodablePrimary, unmarshal_primary-marshal_primary,
}
use ma_sinafadavi_iran.Bpv7.Decode.Block.{unmarshal_canonical, unmarshal_canonical-StrictlyAdvances}
use ma_sinafadavi_iran.Bpv7.Decode.Block.RoundTrip.{
  received, received_block, IsDecodableBlock, unmarshal_canonical-marshal_canonical,
}
use ma_sinafadavi_iran.Bpv7.Decode.Bundle.{
  marshal_blocks, marshal_payload, marshal_bundle, Parts, add_block, ended, read_blocks, checked,
  unmarshal_bundle,
}

pub block_type_code-received :
    (env : Env) (value : ExtensionBlock)
    → block_type_code (received env value) ≡ block_type_code value
unfolding block_type_code
block_type_code-received env (payload_block _) = refl
block_type_code-received env (previous_node_block _) = refl
block_type_code-received env (bundle_age_block _) = refl
block_type_code-received env (hop_count_block _ _) = refl
block_type_code-received env (binary_spray_block _) = refl
block_type_code-received env (rec_bundle_type_block _) = refl
block_type_code-received env (generic_extension_block _ _) = refl

append_crc-value :
    (env : Env) (cb : CanonicalBlock) (head : List ℕ) {r : CanonicalBlock × List ℕ}
    → append_crc env cb head ≡ ok r
    → r.0.value ≡ cb.value
unfolding append_crc
append_crc-value env cb head h = ground arith

-- MarshalCbor changes at most the CRC of a block.
marshal_canonical-value :
    (env : Env) (cb made : CanonicalBlock) (bytes : List ℕ)
    → marshal_canonical env cb ≡ ok (made, bytes)
    → made.value ≡ cb.value
unfolding marshal_canonical
marshal_canonical-value env cb made bytes h =
    let (head, _, k) = >>=-eq-ok (canonical_head env cb) (append_crc env cb) h in
    append_crc-value env cb head k

-- What marshal_blocks wrote, block by block.
data Written (env : Env) : List CanonicalBlock → List CanonicalBlock → List ℕ → Type 0 where
  nothing : Written env [] [] []
  next :
      {cb made : CanonicalBlock} {head : List ℕ} {cbs others : List CanonicalBlock} {tail : List ℕ}
      → marshal_canonical env cb ≡ ok (made, head)
      → Written env cbs others tail
      → Written env (cb ∷ cbs) (made ∷ others) (head ++ tail)

marshal_blocks-Written :
    (env : Env) (cbs : List CanonicalBlock) {r : List CanonicalBlock × List ℕ}
    → marshal_blocks env cbs ≡ ok r
    → Written env cbs r.0 r.1
unfolding marshal_blocks
marshal_blocks-Written env [] {r} m =
    let same : ◌≡◌ {A = List CanonicalBlock × List ℕ} ([], []) r = cc in
    subst (λ x. Written env [] x.0 x.1) same nothing
marshal_blocks-Written env (cb ∷ cbs) {r} m =
    let (first, w, k) = >>=-eq-ok (wrap (marshal_canonical env cb)) _ m in
    let (others, j, l) = >>=-eq-ok (marshal_blocks env cbs) _ k in
    let same : ◌≡◌ {A = List CanonicalBlock × List ℕ} (first.0 ∷ others.0, first.1 ++ others.1) r =
      cc in
    subst (λ x. Written env (cb ∷ cbs) x.0 x.1) same
      (next (wrap-eq-ok (marshal_canonical env cb) w)
        (marshal_blocks-Written env cbs {r = others} j))

-- The bundle that a node reads.
abbrev pub received_bundle : Env → Bundle → Bundle
received_bundle env b = record b {
  extension_blocks = map (received_block env) b.extension_blocks;
  payload = option_map (received_block env) b.payload;
}

-- An extension block, which is no payload block, or the payload block.
abbrev pub IsOfKind : Reader → Bool → CanonicalBlock → Type 0
IsOfKind reader kind cb = IsDecodableBlock reader cb × (nat_beq (type_code cb) type_payload ≡ kind)

pub record IsDecodableBundle (reader : Reader) (b : Bundle) (payload : CanonicalBlock)
    : Type 0 where
  pub primary-IsDecodable : IsDecodablePrimary reader b.primary_block
  pub extensions-IsOfKind : All (IsOfKind reader false) b.extension_blocks
  pub payload-IsOfKind : IsOfKind reader true payload
  pub has_payload : b.payload ≡ some payload

rest_behind :
    (head middle end rest : List ℕ) (i b : ℕ)
    → (i ∷ (head ++ (middle ++ (end ++ b ∷ [])))) ++ rest
      ≡ i ∷ (head ++ (middle ++ (end ++ b ∷ rest)))
rest_behind head middle end rest i b = simp append_assoc

module _ (env : Env) (reader : Reader) (inverse : Inverse env reader)
    (progress : Progress reader) where
  read_blocks-block :
      (kind : Bool) (cb made : CanonicalBlock) (bytes rest : List ℕ) (fuel : ℕ) (parts : Parts)
      → IsOfKind reader kind cb
      → marshal_canonical env cb ≡ ok (made, bytes)
      → length (bytes ++ rest) < suc fuel
      → (length rest < fuel)
        × (read_blocks env reader (suc fuel) parts (bytes ++ rest)
            ≡ read_blocks env reader fuel (add_block (received_block env made) parts) rest)
  unfolding read_blocks
  read_blocks-block kind cb made bytes rest fuel parts (d, k) m h =
      let back = unmarshal_canonical-marshal_canonical env reader inverse cb made bytes d m rest in
      let less =
        unmarshal_canonical-StrictlyAdvances env reader progress fuel (bytes ++ rest)
          (omega arith) in
      (Within-rest less back, rw (back, read_blocks) refl)

  type_code-received_block :
      (cb made : CanonicalBlock) (bytes : List ℕ)
      → marshal_canonical env cb ≡ ok (made, bytes)
      → type_code (received_block env made) ≡ type_code cb
  unfolding type_code
  type_code-received_block cb made bytes m =
      block_type_code-received env made.value
      ∙ ap block_type_code (marshal_canonical-value env cb made bytes m)

  add_block-extension :
      (cb made : CanonicalBlock) (bytes : List ℕ) (parts : Parts)
      → IsOfKind reader false cb
      → marshal_canonical env cb ≡ ok (made, bytes)
      → add_block (received_block env made) parts
        ≡ (parts.0 ++ received_block env made ∷ [], parts.1)
  unfolding add_block
  add_block-extension cb made bytes parts (_, k) m =
      simp (type_code-received_block cb made bytes m, k)

  add_block-payload :
      (cb made : CanonicalBlock) (bytes : List ℕ) (parts : Parts)
      → IsOfKind reader true cb
      → marshal_canonical env cb ≡ ok (made, bytes)
      → add_block (received_block env made) parts ≡ (parts.0, some (received_block env made))
  unfolding add_block
  add_block-payload cb made bytes parts (_, k) m =
      simp (type_code-received_block cb made bytes m, k)

  -- The loop reads the extension blocks that were written, and goes on behind them.
  read_blocks-Written :
      {cbs made : List CanonicalBlock} {bytes : List ℕ} (rest : List ℕ) (fuel : ℕ) (parts : Parts)
      → Written env cbs made bytes
      → All (IsOfKind reader false) cbs
      → length (bytes ++ rest) < fuel
      → (left : ℕ) × (length rest < left)
        × (read_blocks env reader fuel parts (bytes ++ rest)
            ≡ read_blocks env reader left (parts.0 ++ map (received_block env) made, parts.1) rest)
  read_blocks-Written rest fuel parts nothing d h = (fuel, h, simp append-nil)
  read_blocks-Written rest zero parts (next m w) d h = absurd (omega arith)
  read_blocks-Written rest (suc fuel) parts (next {cb} {made = first} {head} {tail} m w) (d, ds) h =
      let (less, back) =
        read_blocks-block false cb first head (tail ++ rest) fuel parts d m
          (rw (append_assoc head tail rest) at h) in
      let (left, fits, others) =
        read_blocks-Written rest fuel (parts.0 ++ received_block env first ∷ [], parts.1) w ds
          less in
      (
        left,
        fits,
        rw (append_assoc head tail rest)
            (back ∙ simp (add_block-extension cb first head parts d m, others, append_assoc)),
      )

  unmarshal_canonical-break_code :
      (rest : List ℕ)
      → unmarshal_canonical env reader (reader.break_code ∷ rest) ≡ err flag_break_code
  unfolding unmarshal_canonical
  unmarshal_canonical-break_code rest = simp inverse.read_array_length-break_code

  read_blocks-break_code :
      (rest : List ℕ) (fuel : ℕ) (parts : Parts)
      → 0 < fuel
      → read_blocks env reader fuel parts (reader.break_code ∷ rest) ≡ ok parts
  unfolding read_blocks ended
  read_blocks-break_code rest zero parts h = absurd (omega arith)
  read_blocks-break_code rest (suc fuel) parts h =
      rw (unmarshal_canonical-break_code rest, read_blocks) refl

  -- The payload block that was written and the break code end the loop.
  read_blocks-end :
      (cb made : CanonicalBlock) (bytes rest : List ℕ) (fuel : ℕ) (parts : Parts)
      → IsOfKind reader true cb
      → marshal_canonical env cb ≡ ok (made, bytes)
      → length (bytes ++ reader.break_code ∷ rest) < fuel
      → read_blocks env reader fuel parts (bytes ++ reader.break_code ∷ rest)
        ≡ ok (parts.0, some (received_block env made))
  read_blocks-end cb made bytes rest zero parts d m h = absurd (omega arith)
  read_blocks-end cb made bytes rest (suc fuel) parts d m h =
      let (less, back) =
        read_blocks-block true cb made bytes (reader.break_code ∷ rest) fuel parts d m h in
      back
      ∙ rw (add_block-payload cb made bytes parts d m)
          (read_blocks-break_code rest fuel _ (omega arith))

  unmarshal_bundle-Written :
      (now : ℕ) (b : Bundle) (primary : PrimaryBlock) (head : List ℕ) (blocks : List CanonicalBlock)
      (middle : List ℕ) (cb last : CanonicalBlock) (end rest : List ℕ)
      → IsDecodableBundle reader b cb
      → marshal_primary env b.primary_block ≡ ok (primary, head)
      → Written env b.extension_blocks blocks middle
      → marshal_canonical env cb ≡ ok (last, end)
      → unmarshal_bundle env reader now
          (reader.indefinite_array ∷ (head ++ (middle ++ (end ++ reader.break_code ∷ rest))))
        ≡ checked env now (
            received_bundle env
              (record { primary_block = primary; extension_blocks = blocks; payload = some last }))
  unfolding unmarshal_bundle
  unmarshal_bundle-Written now b primary head blocks middle cb last end rest d h w m =
      let behind = middle ++ (end ++ reader.break_code ∷ rest) in
      let front =
        unmarshal_primary-marshal_primary env reader inverse b.primary_block primary head
          d.primary-IsDecodable h behind in
      let (left, fits, back) =
        read_blocks-Written (end ++ reader.break_code ∷ rest) (suc (length behind)) ([], none) w
          d.extensions-IsOfKind (omega arith) in
      let parts =
        back
        ∙ read_blocks-end cb last end rest left (map (received_block env) blocks, none)
            d.payload-IsOfKind m fits in
      simp (inverse.read_expect-here, front, parts)

  -- A bundle whose numbers are of their sizes, with one payload block, decodes from its bytes: the
  -- decoder gives what CheckValid makes of the bundle with the CRC values that were written, in which
  -- each BinarySprayBlock is a generic block. What is behind the bytes makes no difference.
  pub unmarshal_bundle-marshal_bundle :
      (now : ℕ) (b made : Bundle) (payload : CanonicalBlock) (bytes rest : List ℕ)
      → IsDecodableBundle reader b payload
      → marshal_bundle env reader b ≡ ok (made, bytes)
      → unmarshal_bundle env reader now (bytes ++ rest) ≡ checked env now (received_bundle env made)
  unfolding marshal_bundle unmarshal_bundle marshal_payload
  unmarshal_bundle-marshal_bundle now b made payload bytes rest d m =
      let ((primary, head), h, k) = >>=-eq-ok (wrap (marshal_primary env b.primary_block)) _ m in
      let ((blocks, middle), i, l) = >>=-eq-ok (marshal_blocks env b.extension_blocks) _ k in
      let ((last, end), j, n) = >>=-eq-ok (marshal_payload env b.payload) _ l in
      let payload_made = wrap-eq-ok (marshal_canonical env payload) (rw d.has_payload at j) in
      let same : ◌≡◌ {A = Bundle × List ℕ}
          (
            record { primary_block = primary; extension_blocks = blocks; payload = some last },
            reader.indefinite_array ∷ (head ++ (middle ++ (end ++ reader.break_code ∷ []))),
          )
          (made, bytes) =
        cc in
      subst
        (λ x.
          unmarshal_bundle env reader now (x.1 ++ rest) ≡ checked env now (received_bundle env x.0))
        same
        (rw (rest_behind head middle end rest reader.indefinite_array reader.break_code) (
          unmarshal_bundle-Written now b primary head blocks middle payload last end rest d
            (wrap-eq-ok (marshal_primary env b.primary_block) h)
            (marshal_blocks-Written env b.extension_blocks {r = (blocks, middle)} i) payload_made))

select-Written :
    (env : Env) (t : ℕ) {cbs made : List CanonicalBlock} {bytes : List ℕ}
    → Written env cbs made bytes
    → map
        (λ (cb : CanonicalBlock). cb.value)
        (select (λ (cb : CanonicalBlock). nat_beq (type_code cb) t) made)
      ≡ map
          (λ (cb : CanonicalBlock). cb.value)
          (select (λ (cb : CanonicalBlock). nat_beq (type_code cb) t) cbs)
unfolding type_code
select-Written env t nothing = refl
select-Written env t (next {cb} {made} {head} m w) =
    ground (arith, marshal_canonical-value env cb made head m, select-Written env t w)

-- MarshalCbor keeps the values of the extension blocks of a type.
pub marshal_bundle-values :
    (env : Env) (reader : Reader) (t : ℕ) (b made : Bundle) (bytes : List ℕ)
    → marshal_bundle env reader b ≡ ok (made, bytes)
    → map (λ (cb : CanonicalBlock). cb.value) (extension_blocks_by_type made t)
      ≡ map (λ (cb : CanonicalBlock). cb.value) (extension_blocks_by_type b t)
unfolding marshal_bundle extension_blocks_by_type
marshal_bundle-values env reader t b made bytes m =
    let ((primary, head), h, k) = >>=-eq-ok (wrap (marshal_primary env b.primary_block)) _ m in
    let ((blocks, middle), i, l) = >>=-eq-ok (marshal_blocks env b.extension_blocks) _ k in
    let ((last, end), j, n) = >>=-eq-ok (marshal_payload env b.payload) _ l in
    let same : blocks ≡ made.extension_blocks = cc in
    subst
      (λ cbs.
        map (λ (cb : CanonicalBlock). cb.value)
          (select (λ (cb : CanonicalBlock). nat_beq (type_code cb) t) cbs)
        ≡ map (λ (cb : CanonicalBlock). cb.value)
            (select (λ (cb : CanonicalBlock). nat_beq (type_code cb) t) b.extension_blocks))
      same
      (select-Written env t
        (marshal_blocks-Written env b.extension_blocks {r = (blocks, middle)} i))

pub checked-same :
    (env : Env) (now : ℕ) (b : Bundle) {q : Bundle} → checked env now b ≡ ok q → b ≡ q
unfolding checked
checked-same env now b h = ground arith

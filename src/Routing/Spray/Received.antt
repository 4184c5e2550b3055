-- ===== src/Routing/Spray/Received.antt =====
-- dtnd7-go/pkg/routing/spray_and_wait.go: NotifyReceivedBundle on a bundle that came over the network.
use ma_sinafadavi_iran.Prelude.{
  ℕ, ◌≡◌, refl, sym, subst, ◌++◌, ap, ◌∙◌, List, [], ◌∷◌, map, nat_beq, select, arith, inl,
}
use ma_sinafadavi_iran.Bpv7.Env.{Env}
use ma_sinafadavi_iran.Bpv7.Outcome.{ok, panic}
use ma_sinafadavi_iran.Bpv7.Block.{
  CanonicalBlock, ExtensionBlock, binary_spray_block, type_code, type_binary_spray,
}
use ma_sinafadavi_iran.Bpv7.Bundle.{
  Bundle, extension_blocks_by_type, extension_block_by_type, only_block,
}
use ma_sinafadavi_iran.Bpv7.Decode.Block.RoundTrip.{received_block}
use ma_sinafadavi_iran.Bpv7.Decode.{Reader}
use ma_sinafadavi_iran.Bpv7.Decode.Laws.{Inverse, Progress}
use ma_sinafadavi_iran.Bpv7.Decode.Bundle.{marshal_bundle, unmarshal_bundle}
use ma_sinafadavi_iran.Bpv7.Decode.Bundle.RoundTrip.{
  received_bundle, block_type_code-received, IsDecodableBundle, unmarshal_bundle-marshal_bundle,
  marshal_bundle-values, checked-same,
}
use ma_sinafadavi_iran.Store.Descriptor.{BundleDescriptor}
use ma_sinafadavi_iran.Routing.Spray.{World, notify_received_bundle, received_copies}

select-received :
    (env : Env) (t : ℕ) (cbs : List CanonicalBlock)
    → select (λ (cb : CanonicalBlock). nat_beq (type_code cb) t) (map (received_block env) cbs)
      ≡ map (received_block env) (select (λ (cb : CanonicalBlock). nat_beq (type_code cb) t) cbs)
unfolding type_code
select-received env t [] = refl
select-received env t (cb ∷ cbs) =
    ground (arith, block_type_code-received env cb.value, select-received env t cbs)

received_copies-received :
    (env : Env) (cb : CanonicalBlock) (copies : ℕ)
    → cb.value ≡ binary_spray_block copies
    → received_copies (inl (received_block env cb)) ≡ panic
unfolding received_copies
received_copies-received env cb copies h = rw h refl

-- The value of the only block of a list.
only_value :
    (values : List ExtensionBlock) (cbs : List CanonicalBlock) (v : ExtensionBlock)
    → map (λ (cb : CanonicalBlock). cb.value) cbs ≡ values
    → values ≡ v ∷ []
    → (cb : CanonicalBlock) × (cbs ≡ cb ∷ []) × (cb.value ≡ v)
only_value values [] v h k = cc
only_value values (cb ∷ []) v h k = (cb, refl, ground arith)
only_value values (cb ∷ x ∷ cbs) v h k = cc

received_bundle_panics :
    (env : Env) (w : World) (d : BundleDescriptor) (b : Bundle) (cb : CanonicalBlock) (copies : ℕ)
    → extension_blocks_by_type b type_binary_spray ≡ cb ∷ []
    → cb.value ≡ binary_spray_block copies
    → notify_received_bundle w d (received_bundle env b) ≡ panic
unfolding notify_received_bundle extension_blocks_by_type extension_block_by_type only_block
received_bundle_panics env w d b cb copies one is =
    let there =
      select-received env type_binary_spray b.extension_blocks
      ∙ ap (map (received_block env)) one in
    simp (there, received_copies-received env cb copies is)

-- A bundle with one BinarySprayBlock, whose numbers are of their sizes, is written, and its bytes are decoded,
-- over readers that take back what the writers wrote and that advance: where the decoder gives a bundle,
-- NotifyReceivedBundle panics on it.
pub received_spray_panics :
    (env : Env) (reader : Reader) (inverse : Inverse env reader) (progress : Progress reader)
    (w : World) (d : BundleDescriptor) (now : ℕ) (b made decoded : Bundle)
    (payload cb : CanonicalBlock) (copies : ℕ) (bytes rest : List ℕ)
    → IsDecodableBundle reader b payload
    → marshal_bundle env reader b ≡ ok (made, bytes)
    → unmarshal_bundle env reader now (bytes ++ rest) ≡ ok decoded
    → extension_blocks_by_type b type_binary_spray ≡ cb ∷ []
    → cb.value ≡ binary_spray_block copies
    → notify_received_bundle w d decoded ≡ panic
received_spray_panics env reader inverse progress w d now b made decoded payload cb copies bytes
      rest decodable m u one is =
    let back =
      unmarshal_bundle-marshal_bundle env reader inverse progress now b made payload bytes rest
        decodable m in
    let same = checked-same env now (received_bundle env made) (sym back ∙ u) in
    let (sent, only, value) =
      only_value _ (extension_blocks_by_type made type_binary_spray) (binary_spray_block copies)
        (marshal_bundle-values env reader type_binary_spray b made bytes m)
        (ap (map (λ (x : CanonicalBlock). x.value)) one ∙ ap (λ (v : ExtensionBlock). v ∷ []) is) in
    subst (λ (q : Bundle). notify_received_bundle w d q ≡ panic) same
      (received_bundle_panics env w d made sent copies only value)

-- ===== src/Bpv7/Decode/Endpoint.antt =====
-- dtnd7-go/pkg/bpv7/endpoint.go, endpoint_dtn.go and endpoint_ipn.go: UnmarshalCbor.
use ma_sinafadavi_iran.Prelude.{
  nat_beq_refl, ℕ, String, ◌^◌, ◌<◌, ◌≡◌, sym, true, false, Option, none, some, List, ◌++◌, nat_beq,
  if◌then◌else◌, append_assoc, arith,
}
use ma_sinafadavi_iran.Bpv7.Env.{Env}
use ma_sinafadavi_iran.Bpv7.Outcome.{
  Outcome, ok, err, wrong_array_length, unknown_scheme, wrong_major, ssp_mismatch, ssp_is_none,
  ◌>>=◌, demand, >>=-eq-ok,
}
use ma_sinafadavi_iran.Bpv7.Endpoint.{
  EndpointType, dtn, ipn, EndpointId, marshal_eid, marshal_some, marshal_type, scheme_no,
  eid_faults,
}
use ma_sinafadavi_iran.Bpv7.Decode.{Reads, Reader, bytes_equal, bytes_equal_iff}
use ma_sinafadavi_iran.Bpv7.Decode.Laws.{Inverse, Progress}
use ma_sinafadavi_iran.Bpv7.Decode.Within.{Advances, StrictlyAdvances, within_rules, Within-step}
use ma_sinafadavi_iran.Bpv7.Outcome.Halts.{Halts, Halts-ok, Halts-err, Halts-if}

-- The node name and the demux of parseDtnSsp, or `none` for the null endpoint.
unfoldable parse_dtn_ssp : Reader → List ℕ → Outcome (Option (String × String))
parse_dtn_ssp reader ssp =
    if bytes_equal ssp reader.none_ssp
    then ok none
    else elim (reader.match_ssp ssp) [ none ↦ err ssp_mismatch | some parts ↦ ok (some parts) ]

named_endpoint : Option (String × String) → Outcome EndpointType
named_endpoint none = err ssp_is_none
named_endpoint (some (node, demux)) = ok (dtn node demux false)

read_ssp : Reader → ℕ → Reads EndpointType
unfolding parse_dtn_ssp named_endpoint
read_ssp reader n input = do
  (ssp, r) ← reader.read_raw_bytes n input
  parts ← parse_dtn_ssp reader ssp
  e ← named_endpoint parts
  ok (e, r)

-- The switch on the major type in DtnEndpoint.UnmarshalCbor.
dtn_of_major : Reader → ℕ → ℕ → Reads EndpointType
unfolding read_ssp
dtn_of_major reader major n input =
    if nat_beq major reader.uint
    then ok (dtn "" "" true, input)
    else if nat_beq major reader.text_string
    then read_ssp reader n input
    else err (wrong_major major)

-- DtnEndpoint.UnmarshalCbor
unmarshal_dtn : Reader → Reads EndpointType
unfolding dtn_of_major
unmarshal_dtn reader input = do
  ((major, n), r) ← reader.read_majors input
  dtn_of_major reader major n r

unfoldable pub expect_length : Reader → ℕ → Reads (Unit {0})
expect_length reader expected input = do
  (n, r) ← reader.read_array_length input
  (if nat_beq n expected then ok (tt, r) else err (wrong_array_length n))

-- IpnEndpoint.UnmarshalCbor
unmarshal_ipn : Reader → Reads EndpointType
unfolding expect_length
unmarshal_ipn reader input = do
  (_, r) ← expect_length reader 2 input
  (node, r) ← reader.read_uint r
  (service, r) ← reader.read_uint r
  ok (ipn node service, r)

-- The type that is registered for a scheme number.
unmarshal_scheme : Reader → ℕ → Reads EndpointType
unfolding unmarshal_dtn unmarshal_ipn
unmarshal_scheme reader scheme input =
    if nat_beq scheme 1
    then unmarshal_dtn reader input
    else if nat_beq scheme 2
    then unmarshal_ipn reader input
    else err (unknown_scheme scheme)

-- EndpointID.UnmarshalCbor
unfoldable pub unmarshal_eid : Reader → Reads EndpointId
unfolding expect_length unmarshal_scheme
unmarshal_eid reader input = do
  (_, r) ← expect_length reader 2 input
  (scheme, r) ← reader.read_uint r
  (e, r) ← unmarshal_scheme reader scheme r
  ok (record { endpoint_type = some e }, r)

-- An endpoint that a decoder can give: dtn:none has no names, another dtn endpoint's names come back
-- from its text, and the numbers of an ipn endpoint are of 64 bits.
abbrev pub IsDecodable : Reader → EndpointId → Type 0
IsDecodable reader e = elim e.endpoint_type [
  | none ↦ Unit {0}
  | some (dtn node demux true) ↦ (node ≡ "") × (demux ≡ "")
  | some (dtn node demux false) ↦
      reader.match_ssp (reader.ssp_bytes node demux) ≡ some (node, demux)
  | some (ipn node service) ↦ (node < 2 ^ 64) × (service < 2 ^ 64)
]

module _ (env : Env) (reader : Reader) (inverse : Inverse env reader) where
  unmarshal_type-marshal_type :
      (t : EndpointType) (rest : List ℕ)
      → IsDecodable reader (record { endpoint_type = some t })
      → unmarshal_scheme reader (scheme_no t) (marshal_type env t ++ rest) ≡ ok (t, rest)
  unfolding unmarshal_scheme unmarshal_dtn dtn_of_major read_ssp unmarshal_ipn expect_length
      scheme_no marshal_type parse_dtn_ssp named_endpoint
  unmarshal_type-marshal_type (dtn node demux true) rest (h, k) =
      simp (inverse.read_majors-write_uint 0 (omega arith), nat_beq_refl, h, k)
  unmarshal_type-marshal_type (dtn node demux false) rest h = simp (
    inverse.read_majors-write_ssp, inverse.read_raw_bytes-length, nat_beq_refl, text, not_none, h,
  )
    where
      text : nat_beq reader.text_string reader.uint ≡ false
      text = ground (arith, inverse.uint-text_string)

      not_none : bytes_equal (reader.ssp_bytes node demux) reader.none_ssp ≡ false
      not_none = ground (
        arith,
        bytes_equal_iff (reader.ssp_bytes node demux) reader.none_ssp,
        inverse.ssp_bytes-none_ssp node demux,
      )
  unmarshal_type-marshal_type (ipn node service) rest (h, k) = simp (
    append_assoc,
    inverse.read_array_length-write_array_length 2 (omega arith),
    inverse.read_uint-write_uint node h,
    inverse.read_uint-write_uint service k,
  )

  unmarshal_some-marshal_some :
      (t : EndpointType) (rest : List ℕ)
      → IsDecodable reader (record { endpoint_type = some t })
      → unmarshal_eid reader (marshal_some env (some t) ++ rest)
        ≡ ok (record { endpoint_type = some t }, rest)
  unfolding unmarshal_eid expect_length marshal_some scheme_no
  unmarshal_some-marshal_some t rest h = simp (
    append_assoc,
    inverse.read_array_length-write_array_length 2 (omega arith),
    inverse.read_uint-write_uint (scheme_no t) (small t),
    unmarshal_type-marshal_type t rest h,
  )
    where
      small : (t : EndpointType) → scheme_no t < 2 ^ 64
      small (dtn _ _ _) = omega arith
      small (ipn _ _) = omega arith

  unmarshal_eid-typed :
      (t : Option EndpointType) {bytes : List ℕ} {u : Unit {0}} (rest : List ℕ)
      → IsDecodable reader (record { endpoint_type = t })
      → demand (eid_faults env (record { endpoint_type = t })) ≡ ok u
      → ok (marshal_some env t) ≡ ok bytes
      → unmarshal_eid reader (bytes ++ rest) ≡ ok (record { endpoint_type = t }, rest)
  unfolding eid_faults
  unmarshal_eid-typed none rest h valid m = cc
  unmarshal_eid-typed (some t) {bytes} rest h valid m =
      let same : marshal_some env (some t) ≡ bytes = cc in
      rw (sym same) (unmarshal_some-marshal_some t rest h)

  -- An endpoint's bytes decode to the endpoint, and what is behind them is left.
  pub unmarshal_eid-marshal_eid :
      (e : EndpointId) (bytes : List ℕ)
      → IsDecodable reader e
      → marshal_eid env e ≡ ok bytes
      → (rest : List ℕ) → unmarshal_eid reader (bytes ++ rest) ≡ ok (e, rest)
  unfolding marshal_eid
  unmarshal_eid-marshal_eid e bytes h m rest =
      let (_, valid, made) =
        >>=-eq-ok (demand (eid_faults env e)) (λ _. ok (marshal_some env e.endpoint_type)) m in
      unmarshal_eid-typed e.endpoint_type rest h valid made

module _ (reader : Reader) (progress : Progress reader) where
  parse_dtn_ssp-Halts : (ssp : List ℕ) → Halts (parse_dtn_ssp reader ssp)
  unfolding parse_dtn_ssp
  parse_dtn_ssp-Halts ssp = Halts-if _ _ _ (Halts-ok _) (matched (reader.match_ssp ssp))
    where
      matched :
          (parts : Option (String × String))
          → Halts (elim parts [ none ↦ err ssp_mismatch | some p ↦ ok (some p) ])
      matched none = Halts-err _
      matched (some p) = Halts-ok _

  named_endpoint-Halts : (parts : Option (String × String)) → Halts (named_endpoint parts)
  unfolding named_endpoint
  named_endpoint-Halts none = Halts-err _
  named_endpoint-Halts (some p) = Halts-ok _

  pub expect_length-StrictlyAdvances : (n : ℕ) → StrictlyAdvances (expect_length reader n)
  unfolding expect_length
  expect_length-StrictlyAdvances n limit input h =
      search (within_rules, progress.read_array_length-StrictlyAdvances)

  pub expect_length-Advances : (n : ℕ) → Advances (expect_length reader n)
  expect_length-Advances n limit input h =
      expect_length-StrictlyAdvances n limit input (omega arith)

  read_ssp-Advances : (n : ℕ) → Advances (read_ssp reader n)
  unfolding read_ssp
  read_ssp-Advances n limit input h = search (
    within_rules, Within-step, parse_dtn_ssp-Halts, named_endpoint-Halts,
    progress.read_raw_bytes-Advances,
  )

  dtn_of_major-Advances : (major n : ℕ) → Advances (dtn_of_major reader major n)
  unfolding dtn_of_major
  dtn_of_major-Advances major n limit input h = search (within_rules, read_ssp-Advances)

  unmarshal_scheme-Advances : (scheme : ℕ) → Advances (unmarshal_scheme reader scheme)
  unfolding unmarshal_scheme unmarshal_dtn unmarshal_ipn
  unmarshal_scheme-Advances scheme limit input h =
      search
        (
          within_rules, dtn_of_major-Advances, expect_length-Advances,
          progress.read_majors-Advances, progress.read_uint-Advances,
        )
        depth 10

  -- Reading an endpoint returns, and takes a byte at least where it succeeds.
  pub unmarshal_eid-StrictlyAdvances : StrictlyAdvances (unmarshal_eid reader)
  unfolding unmarshal_eid
  unmarshal_eid-StrictlyAdvances limit input h = search (
    within_rules, expect_length-StrictlyAdvances, progress.read_uint-Advances,
    unmarshal_scheme-Advances,
  )

  pub unmarshal_eid-Advances : Advances (unmarshal_eid reader)
  unmarshal_eid-Advances limit input h = unmarshal_eid-StrictlyAdvances limit input (omega arith)

-- ===== src/Bpv7/Endpoint.antt =====
-- dtnd7-go/pkg/bpv7/endpoint.go, endpoint_dtn.go and endpoint_ipn.go.

pub mod Node
use ma_sinafadavi_iran.Prelude.{
  ℕ, String, ◌++◌, ◌≡◌, ◌↔◌, Bool, true, false, not, ◌&&◌, ◌||◌, Option, none, some, List, [], ◌∷◌,
  arith, Eq, nat_eq, string_eq, ◌==◌, nat_beq, ltb,
}
use ma_sinafadavi_iran.Bpv7.Env.{Env}
use ma_sinafadavi_iran.Bpv7.Outcome.Halts.{Halts, halts_rules}
use ma_sinafadavi_iran.Bpv7.Outcome.{
  Fault, endpoint_type_nil, malformed_ssp, ipn_number_zero, Outcome, ok, demand, fault_unless, ◌>>◌,
}

-- A DtnEndpoint has its node name, its demux and IsDtnNone; an IpnEndpoint its two numbers.
pub data EndpointType : Type 0 where
  dtn : String → String → Bool → EndpointType
  ipn : ℕ → ℕ → EndpointType

-- `none` is the nil interface.
pub record EndpointId : Type 0 where
  pub endpoint_type : Option EndpointType

abbrev pub dtn_none : EndpointId
dtn_none = record { endpoint_type = some (dtn "" "" true) }

abbrev bool_beq : Bool → Bool → Bool
bool_beq true b = b
bool_beq false b = not b

bool_beq_iff : (a b : Bool) → (bool_beq a b ≡ true) ↔ (a ≡ b)
bool_beq_iff a b = ground arith

-- `==` on the two interface values.
abbrev pub type_beq : EndpointType → EndpointType → Bool
type_beq (dtn n d z) (dtn n' d' z') = n == n' && d == d' && bool_beq z z'
type_beq (ipn n s) (ipn n' s') = nat_beq n n' && nat_beq s s'
type_beq _ _ = false

type_beq_iff : (a b : EndpointType) → (type_beq a b ≡ true) ↔ (a ≡ b)
type_beq_iff (dtn n d z) (dtn n' d' z') =
    ground (arith, string_eq.same_iff n n', string_eq.same_iff d d')
type_beq_iff (ipn n s) (ipn n' s') = ground arith
type_beq_iff (dtn n d z) (ipn n' s') = ground arith
type_beq_iff (ipn n s) (dtn n' d' z') = ground arith

abbrev pub option_beq : Option EndpointType → Option EndpointType → Bool
option_beq none none = true
option_beq (some a) (some b) = type_beq a b
option_beq _ _ = false

option_beq_iff : (a b : Option EndpointType) → (option_beq a b ≡ true) ↔ (a ≡ b)
option_beq_iff none none = ground arith
option_beq_iff (some a) (some b) = ground (arith, type_beq_iff a b)
option_beq_iff none (some b) = ground arith
option_beq_iff (some a) none = ground arith

abbrev pub eid_beq : EndpointId → EndpointId → Bool
eid_beq a b = option_beq a.endpoint_type b.endpoint_type

pub eid_beq_iff : (a b : EndpointId) → (eid_beq a b ≡ true) ↔ (a ≡ b)
eid_beq_iff a b = ground (arith, option_beq_iff a.endpoint_type b.endpoint_type)

instance abbrev pub eid_eq : Eq EndpointId
eid_eq = record { same = eid_beq; same_iff = eid_beq_iff }

-- CheckValid of the two endpoint types.
type_faults : Env → EndpointType → List Fault
type_faults env (dtn node demux is_none) =
    fault_unless (is_none || env.ssp_matches node demux) malformed_ssp
type_faults env (ipn node service) =
    fault_unless (not (ltb node 1 || ltb service 1)) ipn_number_zero

endpoint_faults : Env → Option EndpointType → List Fault
endpoint_faults env none = endpoint_type_nil ∷ []
endpoint_faults env (some t) = type_faults env t

-- EndpointID.CheckValid
unfoldable pub eid_faults : Env → EndpointId → List Fault
unfolding endpoint_faults type_faults
eid_faults env e = endpoint_faults env e.endpoint_type

-- SchemeNo
unfoldable pub scheme_no : EndpointType → ℕ
scheme_no (dtn _ _ _) = 1
scheme_no (ipn _ _) = 2

-- MarshalCbor of the two endpoint types.
unfoldable pub marshal_type : Env → EndpointType → List ℕ
marshal_type env (dtn node demux true) = env.write_uint 0
marshal_type env (dtn node demux false) = env.write_ssp node demux
marshal_type env (ipn node service) =
    env.write_array_length 2 ++ (env.write_uint node ++ env.write_uint service)

unfoldable pub marshal_some : Env → Option EndpointType → List ℕ
marshal_some env none = []
marshal_some env (some t) =
    env.write_array_length 2 ++ (env.write_uint (scheme_no t) ++ marshal_type env t)

-- EndpointID.MarshalCbor; the check above it refuses a nil type.
unfoldable pub marshal_eid : Env → EndpointId → Outcome (List ℕ)
unfolding scheme_no marshal_type marshal_some
marshal_eid env e = do demand (eid_faults env e); ok (marshal_some env e.endpoint_type)

pub marshal_eid-Halts : (env : Env) (e : EndpointId) → Halts (marshal_eid env e)
unfolding marshal_eid
marshal_eid-Halts env e = search halts_rules

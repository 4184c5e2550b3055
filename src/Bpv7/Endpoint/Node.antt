-- ===== src/Bpv7/Endpoint/Node.antt =====
-- dtnd7-go/pkg/bpv7/endpoint.go: SameNode. The decimal text of a number, by fmt, is a parameter.
use ma_sinafadavi_iran.Prelude.{
  ℕ, String, Bool, true, false, ◌&&◌, Option, none, some, string_eq, ◌==◌,
}
use ma_sinafadavi_iran.Bpv7.Endpoint.{EndpointType, dtn, ipn, EndpointId, type_beq}

-- SchemeName
scheme_name : EndpointType → String
scheme_name (dtn _ _ _) = "dtn"
scheme_name (ipn _ _) = "ipn"

-- Authority
authority : (ℕ → String) → EndpointType → String
authority decimal (dtn _ _ true) = "none"
authority decimal (dtn node _ false) = node
authority decimal (ipn node _) = decimal node

same_types : (ℕ → String) → Option EndpointType → Option EndpointType → Bool
unfolding scheme_name authority
same_types decimal none none = true
same_types decimal none (some t) = type_beq t (dtn "" "" true)
same_types decimal (some t) none = type_beq t (dtn "" "" true)
same_types decimal (some a) (some b) =
    scheme_name a == scheme_name b && authority decimal a == authority decimal b

-- EndpointID.SameNode
unfoldable pub same_node : (ℕ → String) → EndpointId → EndpointId → Bool
unfolding same_types
same_node decimal a b = same_types decimal a.endpoint_type b.endpoint_type

-- ===== src/Cla/Types.antt =====
-- dtnd7-go/pkg/cla/cla_types.go. strings.ToLower is a parameter.
use ma_sinafadavi_iran.Prelude.{
  ℕ, String, ◌≡◌, sym, ◌∙◌, Bool, true, false, not, Option, none, some, string_eq, ◌==◌, nat_beq,
  if◌then◌else◌, arith, Bool-cases, inl, inr,
}

abbrev pub tcpclv4 : ℕ
tcpclv4 = 0

abbrev pub mtcp : ℕ
mtcp = 10

abbrev pub quicl : ℕ
quicl = 20

abbrev pub unknown_cla_type_string : String
unknown_cla_type_string = "unknown CLA type"

-- CLAType.String; the dummy type has no name.
unfoldable pub type_string : ℕ → String
type_string t =
    if nat_beq t tcpclv4
    then "TCPCLv4"
    else if nat_beq t mtcp
    then "MTCP"
    else if nat_beq t quicl
    then "QUICL"
    else unknown_cla_type_string

-- TypeFromString; `none` is its error.
unfoldable pub type_from_string : (String → String) → String → Option ℕ
type_from_string to_lower s =
    let name = to_lower s in
    if name == "tcpclv4"
    then some tcpclv4
    else if name == "mtcp"
    then some mtcp
    else if name == "quicl"
    then some quicl
    else none

-- CLAType.CheckValid finds no fault.
unfoldable pub is_valid_type : ℕ → Bool
unfolding type_string
is_valid_type t = not (type_string t == unknown_cla_type_string)

-- A valid type comes back from its name, where ToLower maps the three names to lower case.
pub type_from_string-type_string :
    (to_lower : String → String) (t : ℕ)
    → to_lower "TCPCLv4" ≡ "tcpclv4"
    → to_lower "MTCP" ≡ "mtcp"
    → to_lower "QUICL" ≡ "quicl"
    → is_valid_type t ≡ true
    → type_from_string to_lower (type_string t) ≡ some t
unfolding type_from_string type_string is_valid_type
type_from_string-type_string to_lower t h1 h2 h3 valid = elim (Bool-cases (nat_beq t tcpclv4)) [
  | inl first ↦ let is : t ≡ 0 = ground arith in rw is (simp h1)
  | inr a ↦ elim (Bool-cases (nat_beq t mtcp)) [
    | inl second ↦ let is : t ≡ 10 = ground arith in rw is (simp h2)
    | inr b ↦ elim (Bool-cases (nat_beq t quicl)) [
      | inl third ↦ let is : t ≡ 20 = ground arith in rw is (simp h3)
      | inr c ↦ let unnamed : true ≡ false = sym valid ∙ simp (a, b, c) in cc
    ]
  ]
]

-- ===== src/Bpv7/Crc.antt =====
-- dtnd7-go/pkg/bpv7/crc.go.
use ma_sinafadavi_iran.Prelude.{ℕ, ◌/◌, ◌%◌, ◌^◌, ◌++◌, List, [], ◌∷◌, nat_beq, if◌then◌else◌}
use ma_sinafadavi_iran.Bpv7.Env.{Env}
use ma_sinafadavi_iran.Bpv7.Outcome.Halts.{Halts, Halts-bind, Halts-ok, halts_rules}
use ma_sinafadavi_iran.Bpv7.Outcome.{Outcome, ok, err, unknown_crc_type, ◌>>=◌}

abbrev pub crc_no : ℕ
crc_no = 0

abbrev pub crc_16 : ℕ
crc_16 = 1

abbrev pub crc_32 : ℕ
crc_32 = 2

pub empty_crc : ℕ → Outcome (List ℕ)
empty_crc crc_type =
    if nat_beq crc_type crc_no
    then ok []
    else if nat_beq crc_type crc_16
    then ok (0 ∷ 0 ∷ [])
    else if nat_beq crc_type crc_32
    then ok (0 ∷ 0 ∷ 0 ∷ 0 ∷ [])
    else err (unknown_crc_type crc_type)

-- binary.BigEndian.PutUint16 and PutUint32
pub put_uint16 : ℕ → List ℕ
put_uint16 v = (v / 2 ^ 8 % 2 ^ 8) ∷ (v % 2 ^ 8) ∷ []

pub put_uint32 : ℕ → List ℕ
put_uint32 v = (v / 2 ^ 24 % 2 ^ 8) ∷ (v / 2 ^ 16 % 2 ^ 8) ∷ (v / 2 ^ 8 % 2 ^ 8) ∷ (v % 2 ^ 8) ∷ []

checksum : Env → ℕ → List ℕ → List ℕ
unfolding put_uint16 put_uint32
checksum env crc_type buff =
    if nat_beq crc_type crc_16
    then put_uint16 (env.crc16 buff)
    else if nat_beq crc_type crc_32
    then put_uint32 (env.crc32 buff)
    else []

-- The value is computed over the buffer with an empty value of the type appended.
unfoldable pub calculate_crc_buff : Env → List ℕ → ℕ → Outcome (List ℕ)
unfolding empty_crc checksum
calculate_crc_buff env buff crc_type = do
  bytes ← empty_crc crc_type
  ok (checksum env crc_type (buff ++ env.write_byte_string bytes))

empty_crc-Halts : (crc_type : ℕ) → Halts (empty_crc crc_type)
unfolding empty_crc
empty_crc-Halts crc_type = search halts_rules

pub calculate_crc_buff-Halts :
    (env : Env) (buff : List ℕ) (crc_type : ℕ) → Halts (calculate_crc_buff env buff crc_type)
unfolding calculate_crc_buff
calculate_crc_buff-Halts env buff crc_type =
    Halts-bind (empty_crc crc_type) _ (empty_crc-Halts crc_type) (λ bytes. Halts-ok _)

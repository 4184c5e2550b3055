-- ===== src/Bpv7/Primary/Marshal.antt =====
-- PrimaryBlock.MarshalCbor changes no field of the block but its CRC.
use ma_sinafadavi_iran.Prelude.{ℕ, ◌≡◌, List, [], arith}
use ma_sinafadavi_iran.Bpv7.Env.{Env}
use ma_sinafadavi_iran.Bpv7.Outcome.{ok, >>=-eq-ok}
use ma_sinafadavi_iran.Bpv7.Primary.{PrimaryBlock, append_crc, primary_head, marshal_primary}

abbrev pub without_crc : PrimaryBlock → PrimaryBlock
without_crc pb = record pb { crc = [] }

append_crc-without_crc :
    (env : Env) (pb : PrimaryBlock) (head : List ℕ) {r : PrimaryBlock × List ℕ}
    → append_crc env pb head ≡ ok r
    → without_crc r.0 ≡ without_crc pb
unfolding append_crc
append_crc-without_crc env pb head h = ground arith

pub marshal_primary-without_crc :
    (env : Env) (pb : PrimaryBlock) {r : PrimaryBlock × List ℕ}
    → marshal_primary env pb ≡ ok r
    → without_crc r.0 ≡ without_crc pb
unfolding marshal_primary
marshal_primary-without_crc env pb {r} h =
    let (head, _, e) = >>=-eq-ok (primary_head env pb) (append_crc env pb) {b = r} h in
    append_crc-without_crc env pb head {r = r} e

-- ===== src/IdKeeper.antt =====
-- dtnd7-go/pkg/id_keeper/id_keeper.go. Update and Clean hold the keeper's lock, so each is one step.
pub mod Uniqueness
mod Examples
use ma_sinafadavi_iran.Prelude.{
  ℕ, ◌+◌, ◌-◌, ◌/◌, ◌%◌, ◌^◌, ◌≡◌, ◌↔◌, Bool, true, not, ◌&&◌, Option, none, some, List, arith, Eq,
  nat_beq, ltb, find, put, keep,
}
use ma_sinafadavi_iran.Bpv7.Endpoint.{EndpointId, eid_beq, eid_beq_iff}
use ma_sinafadavi_iran.Bpv7.Time.{milliseconds1970_to_2k}
use ma_sinafadavi_iran.Bpv7.Bundle.{Bundle}

pub record IdTuple : Type 0 where
  pub source : EndpointId
  pub time : ℕ

abbrev pub tuple_beq : IdTuple → IdTuple → Bool
tuple_beq a b = eid_beq a.source b.source && nat_beq a.time b.time

pub tuple_beq_iff : (a b : IdTuple) → (tuple_beq a b ≡ true) ↔ (a ≡ b)
tuple_beq_iff a b = ground (arith, eid_beq_iff a.source b.source)

instance abbrev pub tuple_eq : Eq IdTuple
tuple_eq = record { same = tuple_beq; same_iff = tuple_beq_iff }

-- newIdTuple
abbrev pub new_id_tuple : Bundle → IdTuple
new_id_tuple b = record {
  source = b.primary_block.source_node;
  time = b.primary_block.creation_timestamp.dtn_time;
}

-- The field `data` of IdKeeper.
abbrev pub Keeper : Type 0
Keeper = List (IdTuple × ℕ)

-- What Update stores, from what it finds; the addition is one of uint64.
unfoldable pub next_number : Option ℕ → ℕ
next_number none = 0
next_number (some state) = (state + 1) % 2 ^ 64

unfoldable pub with_sequence_number : Bundle → ℕ → Bundle
with_sequence_number b n = record b {
  primary_block = record (b.primary_block) {
    creation_timestamp = record (b.primary_block.creation_timestamp) { sequence_number = n };
  };
}

unfoldable pub update : Keeper → Bundle → Keeper × Bundle
unfolding next_number with_sequence_number
update keeper b =
    let n = next_number (find (new_id_tuple b) keeper) in
    (put (new_id_tuple b) n keeper, with_sequence_number b n)

-- DtnTimeFromTime(time.Now().Add(-time.Hour)), with `now` in nanoseconds since 1970 and not before 2001.
unfoldable pub clean_threshold : ℕ → ℕ
clean_threshold now = (now - 3600000000000) / 1000000 - milliseconds1970_to_2k

-- Clean, from the threshold on.
unfoldable pub clean : ℕ → Keeper → Keeper
clean threshold keeper = keep (λ t. not (ltb t.time threshold)) keeper

-- Clean, with time.Now() in nanoseconds since 1970.
unfoldable pub clean_now : ℕ → Keeper → Keeper
unfolding clean_threshold clean
clean_now now keeper = clean (clean_threshold now) keeper

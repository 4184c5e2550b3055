-- ===== src/Bpv7/Time.antt =====
-- dtnd7-go/pkg/bpv7/time.go, and the deadline of Bundle.IsLifetimeExceeded. A uint64 is a number
-- below 2 ^ 64; an int64 is its bit pattern, with the two numbers whose difference it stands for.
use ma_sinafadavi_iran.Prelude.{
  ℕ, ◌+◌, ◌*◌, ◌-◌, ◌%◌, ◌^◌, ◌<◌, ◌≡◌, Bool, arith, ltb, nat_beq, if◌then◌else◌,
}

-- CreationTimestamp: the DtnTime in milliseconds since 2000 and the sequence number.
pub record CreationTimestamp : Type 0 where
  pub dtn_time : ℕ
  pub sequence_number : ℕ

abbrev pub milliseconds1970_to_2k : ℕ
milliseconds1970_to_2k = 946684800000

unfoldable pub is_zero_time : CreationTimestamp → Bool
is_zero_time ct = nat_beq ct.dtn_time 0

-- The int64 of a bit pattern is pos64 - neg64.
abbrev pub pos64 : ℕ → ℕ
pos64 w = if ltb w (2 ^ 63) then w else 0

abbrev pub neg64 : ℕ → ℕ
neg64 w = if ltb w (2 ^ 63) then 0 else 2 ^ 64 - w

-- DtnTime.unixMilliseconds, as a bit pattern.
pub unix_milliseconds : ℕ → ℕ
unix_milliseconds t = (t + milliseconds1970_to_2k) % 2 ^ 64

-- time.Duration(lifetime) * time.Millisecond, in nanoseconds as a bit pattern.
pub lifetime_duration : ℕ → ℕ
lifetime_duration lifetime = lifetime * 1000000 % 2 ^ 64

-- time.Now().After(maxTimestamp), with `now` in nanoseconds since 1970.
unfoldable pub now_after : ℕ → ℕ → ℕ → Bool
unfolding unix_milliseconds lifetime_duration
now_after now dtn_time lifetime =
    let ms = unix_milliseconds dtn_time in
    let d = lifetime_duration lifetime in
    ltb (pos64 ms * 1000000 + pos64 d) (now + neg64 ms * 1000000 + neg64 d)

-- With a creation time below 2 ^ 63 milliseconds since 1970 and a lifetime below 2 ^ 63 nanoseconds,
-- about 292 years, the test compares the plain sum of the two with the clock.
pub now_after-in_range :
    (now t lifetime : ℕ)
    → t + milliseconds1970_to_2k < 2 ^ 63
    → lifetime * 1000000 < 2 ^ 63
    → now_after now t lifetime
      ≡ ltb ((t + milliseconds1970_to_2k) * 1000000 + lifetime * 1000000) now
unfolding now_after
now_after-in_range now t lifetime h k = ground arith

-- ===== src/Clock.antt =====
-- clock.go: FakeClock, the clock of tests: an int64 of nanoseconds since 1970, kept as its pattern.
use go_build_cache.Prelude.{ℕ, ◌+◌, ◌-◌, ◌*◌, ◌%◌, ◌<◌, ◌≤◌, ◌≡◌, arith, ltb, if◌then◌else◌}
use go_build_cache.Prelude.Int64.{add64, two64, two63}
use go_build_cache.Model.{Time}

-- 1970 in nanoseconds since Go's zero time
abbrev pub unix_epoch : Time
unix_epoch = 62135596800000000000

-- t.UnixNano(), which wraps round outside of its range
unfoldable pub unix_nano : Time → ℕ
unix_nano t = (t + 4 * two64 - unix_epoch) % two64

-- time.Unix(0, n)
unfoldable pub unix : ℕ → Time
unix n = if ltb n two63 then unix_epoch + n else unix_epoch - (two64 - n)

pub record FakeClock : Type 0 where
  pub nanos : ℕ

-- NewFakeClock
unfoldable pub new_fake_clock : Time → FakeClock
new_fake_clock t = record { nanos = unix_nano t }

-- FakeClock.Now
unfoldable pub fake_now : FakeClock → Time
fake_now c = unix c.nanos

-- FakeClock.Advance
unfoldable pub advance : ℕ → FakeClock → FakeClock
advance d c = record { nanos = add64 c.nanos d }

-- FakeClock.Set
unfoldable pub set : Time → FakeClock → FakeClock
set t c = record { nanos = unix_nano t }

-- The clock tells the time that it was set to, moved on by what it was advanced, while both lie within
-- 2 ^ 63 nanoseconds of 1970.
pub fake_now-advance-set :
    (c : FakeClock) (t d : ℕ)
    → unix_epoch ≤ t + two63
    → t + d < unix_epoch + two63
    → fake_now (advance d (set t c)) ≡ t + d
unfolding fake_now advance set unix unix_nano add64
fake_now-advance-set c t d a b = ground arith

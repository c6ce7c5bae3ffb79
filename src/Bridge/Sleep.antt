-- ===== src/Bridge/Sleep.antt =====
-- `qjs_sleep_ms` of native/quickjs_bridge.c, its POSIX branch. `nanosleep` is POSIX's: it sleeps
-- the whole interval, or a signal ends it early and it stores the rest.
use quickjs_runtime.Prelude.{
  ℕ, suc, ◌+◌, ◌-◌, ◌*◌, ◌/◌, ◌%◌, ◌≤◌, ◌<◌, ◌≡◌, refl, if◌then◌else◌, leb, List, [], ◌∷◌, arith,
  length,
}
use quickjs_runtime.Prelude.Int.{ℤ, pos, negsuc, pos_part}

pub record Timespec : Type 0 where
  pub tv_sec : ℕ
  pub tv_nsec : ℕ

abbrev pub nanoseconds : Timespec → ℕ
nanoseconds ts = ts.tv_sec * 1_000_000_000 + ts.tv_nsec

abbrev pub timespec_of : ℕ → Timespec
timespec_of n = record { tv_sec = n / 1_000_000_000; tv_nsec = n % 1_000_000_000 }

-- The times, from the start of a call, at which signals interrupt the calls of `nanosleep`, one
-- after the other; a signal after the end of its call does not count.
abbrev pub Signals : Type 0
Signals = List ℕ

-- The total time slept, each interval that `nanosleep` was asked for, and the result.
pub record Slept : Type 0 where
  pub elapsed : ℕ
  pub asked : List Timespec
  pub rc : ℤ

-- while (nanosleep(&ts, &ts) == -1 && errno == EINTR) {}
unfoldable pub sleep_loop : Signals → Timespec → Slept
sleep_loop [] ts = record { elapsed = nanoseconds ts; asked = ts ∷ []; rc = pos 0 }
sleep_loop (d ∷ ds) ts =
    let rest = sleep_loop ds (timespec_of (nanoseconds ts - d)) in
    if leb (nanoseconds ts) d
    then record { elapsed = nanoseconds ts; asked = ts ∷ []; rc = pos 0 }
    else record { elapsed = d + rest.elapsed; asked = ts ∷ rest.asked; rc = rest.rc }

unfoldable pub qjs_sleep_ms : Signals → ℤ → Slept
unfolding sleep_loop
qjs_sleep_ms signals (negsuc n) = record { elapsed = 0; asked = []; rc = pos 0 }
qjs_sleep_ms signals (pos ms) =
    if leb ms 0
    then record { elapsed = 0; asked = []; rc = pos 0 }
    else sleep_loop signals (record { tv_sec = ms / 1000; tv_nsec = ms % 1000 * 1_000_000 })

-- What POSIX asks of an interval; `nanosleep` fails with EINVAL on any other.
abbrev pub AllValid : List Timespec → Type 0
AllValid [] = Unit
AllValid (ts ∷ rest) = (ts.tv_nsec < 1_000_000_000) × AllValid rest

sleep_loop_lem :
    (signals : Signals) (ts : Timespec)
    → ts.tv_nsec < 1_000_000_000
    → ((sleep_loop signals ts).elapsed ≡ nanoseconds ts)
      × ((sleep_loop signals ts).rc ≡ pos 0)
      × AllValid (sleep_loop signals ts).asked
      × (length (sleep_loop signals ts).asked ≤ suc (length signals))
unfolding sleep_loop
sleep_loop_lem [] ts h = (refl, refl, (h, tt), omega arith)
sleep_loop_lem (d ∷ ds) ts h = ground (arith, sleep_loop_lem ds (timespec_of (nanoseconds ts - d)))

-- However often signals interrupt it, the sleep returns 0 after exactly `ms` milliseconds, or at
-- once for no positive `ms`; each interval that it asks for is valid, and it asks at most once
-- more than there are signals.
pub qjs_sleep_ms_lem :
    (signals : Signals) (ms : ℤ)
    → ((qjs_sleep_ms signals ms).elapsed ≡ pos_part ms * 1_000_000)
      × ((qjs_sleep_ms signals ms).rc ≡ pos 0)
      × AllValid (qjs_sleep_ms signals ms).asked
      × (length (qjs_sleep_ms signals ms).asked ≤ suc (length signals))
unfolding qjs_sleep_ms
qjs_sleep_ms_lem signals (negsuc n) = (refl, refl, tt, omega arith)
qjs_sleep_ms_lem signals (pos ms) =
    ground (
      arith,
      sleep_loop_lem signals (record { tv_sec = ms / 1000; tv_nsec = ms % 1000 * 1_000_000 }),
    )

-- ===== src/Streamcheck.antt =====
-- internal/streamcheck/streamcheck.go: the gate that runs a stream's authorization checks. The
-- mutex makes the calls of one gate a sequence; each is a function of the gate before it.
pub mod Laws
use protobuf_interceptors.Base.{
  ℕ, ◌+◌, Bool, true, false, ◌&&◌, Option, none, some, ltb, if◌then◌else◌,
}
use protobuf_interceptors.Base.Outcomes.{Outcome, returned, panicked, Call}
use protobuf_interceptors.Core.Errors.{Error, sentinel, check_incomplete}

-- Times and the interval are nanoseconds.
pub record Gate : Type 0 where
  pub interval : ℕ
  pub checked : Bool
  pub last : ℕ
  pub err : Option Error

-- `New`; the clock is an argument of `check`.
abbrev pub new : ℕ → Gate
new interval = record { interval = interval; checked = false; last = 0; err = none }

-- Whether the gate skips the check that is asked for at `start`. `start.Sub(g.last) < g.interval`
-- is `start < g.last + g.interval`, also where the clock went back.
abbrev pub skips : Gate → ℕ → Bool
skips g start = ltb 0 g.interval && g.checked && ltb start (g.last + g.interval)

module _ {S : Type 0} where
  -- What the check's outcome makes of a gate that ran it at `start`.
  unfoldable pub settle : Gate → ℕ → Outcome (Option Error) × S → Outcome (Option Error) × Gate × S
  settle g start (returned none, s) =
      (returned none, record g { err = none; checked = true; last = start }, s)
  settle g start (returned (some e), s) = (returned (some e), record g { err = some e }, s)
  settle g start (panicked, s) = (panicked, record g { err = some (sentinel check_incomplete) }, s)

  -- `Check` of a gate that has not failed, at the time read.
  unfoldable pub check_at : Gate → Call S (Option Error) → ℕ × S → Outcome (Option Error) × Gate × S
  unfolding settle
  check_at g run (start, s) =
      if skips g start then (returned none, g, s) else settle g start (run s)

  -- `Check`; the clock is read only by a gate that has not failed.
  unfoldable pub check :
      (S → ℕ × S) → Gate → Call S (Option Error) → S → Outcome (Option Error) × Gate × S
  unfolding check_at
  check now g run s = elim g.err [
    | some e ↦ (returned (some e), g, s)
    | none ↦ check_at g run (now s)
  ]

-- ===== src/Streamcheck/Laws.antt =====
-- internal/streamcheck/streamcheck.go: what a check comes to and leaves.
use protobuf_interceptors.Base.{ℕ, ◌≡◌, ◌⊎◌, true, Option, none, some, arith}
use protobuf_interceptors.Base.Outcomes.{returned, panicked, Call}
use protobuf_interceptors.Core.Errors.{Error, sentinel, check_incomplete}
use protobuf_interceptors.Streamcheck.{Gate, skips, settle, check_at, check}

module _ {S : Type 0} (now : S → ℕ × S) where
  -- The first failure is final: a gate that has failed answers every later check with the same
  -- error, running nothing, reading no clock, and staying as it is.
  pub check-failed :
      (g : Gate) (e : Error) (run : Call S (Option Error)) (s : S)
      → g.err ≡ some e
      → check now g run s ≡ (returned (some e), g, s)
  unfolding check
  check-failed g e run s h = rw h

  -- After any check the gate has failed unless the check was skipped or returned no error: an
  -- error that is returned is the gate's failure, and a check that panics leaves ErrCheckIncomplete.
  pub check_settles :
      (g : Gate) (run : Call S (Option Error)) (s : S)
      → (check now g run s).0 ≡ returned (check now g run s).1.err
        ⊎ (((check now g run s).0 ≡ panicked)
            × ((check now g run s).1.err ≡ some (sentinel check_incomplete)))
  unfolding check check_at settle
  check_settles g run s = ground arith

  -- A check that passes was due and returned no error, or was skipped within the interval of an
  -- earlier one; the gate has not failed, before and after.
  pub check-passed :
      (g g' : Gate) (run : Call S (Option Error)) (s s' : S)
      → check now g run s ≡ (returned none, g', s')
      → (g.err ≡ none)
        × (g'.err ≡ none)
        × (((skips g (now s).0 ≡ true) × (s' ≡ (now s).1) × (g' ≡ g))
            ⊎ ((run (now s).1 ≡ (returned none, s')) × (g'.checked ≡ true) × (g'.last ≡ (now s).0)))
  unfolding check check_at settle
  check-passed g g' run s s' h = ground arith

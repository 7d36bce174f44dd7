-- ===== src/Daemon/Examples.antt =====
-- The policy of the daemon, and the theorem at it.
use wechatcopilot.Prelude.{ℕ, true, false, [], ◌∷◌, ◌≡◌, refl, not, nat_beq}
use wechatcopilot.Prelude.Int.{pos, ◌*ℤ◌}
use wechatcopilot.Daemon.{
  Policy, Round, restored, first_backoff, next_backoff, attempts, bad_backoff, run_restore_retry,
}
use wechatcopilot.Daemon.Bounds.{IsWithin, run_restore_retry-IsWithin}

-- `defaultRestoreRetryPolicy`
abbrev default_policy : Policy
default_policy = record {
  max_attempts = pos 10;
  initial_backoff = pos 500000000;
  max_backoff = pos 15000000000;
}

abbrev round : Round
round = record {
  done_before = false;
  done_after = false;
  done_waiting = false;
  fails = true;
  times_out = false;
}

-- The restore fails until four attempts are left.
abbrev rounds : ℕ → Round
rounds n = record round { fails = not (nat_beq n 4) }

retried : run_restore_retry default_policy rounds ≡ record {
  ending = restored;
  restores = 7;
  delays =
      pos 500000000
      ∷ pos 1000000000
      ∷ pos 2000000000
      ∷ pos 4000000000
      ∷ pos 8000000000
      ∷ pos 15000000000
      ∷ [];
}
unfolding run_restore_retry bad_backoff attempts first_backoff next_backoff ◌*ℤ◌
retried = refl

run_restore_retry-IsWithin_example :
    IsWithin default_policy 10 (run_restore_retry default_policy rounds)
run_restore_retry-IsWithin_example = run_restore_retry-IsWithin default_policy rounds

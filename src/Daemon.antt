-- ===== src/Daemon.antt =====
-- internal/daemon/server.go: the retry of the restore when the daemon starts.
pub mod Bounds
mod Examples
use wechatcopilot.Prelude.{
  ℕ, suc, zero, Bool, true, false, not, ◌&&◌, ◌||◌, List, [], ◌∷◌, if◌then◌else◌,
}
use wechatcopilot.Prelude.Int.{ℤ, pos, pos_part, ◌*ℤ◌, ltb_ℤ, leb_ℤ, beq_ℤ}

-- `restoreRetryPolicy`; durations are nanoseconds.
pub record Policy : Type 0 where
  pub max_attempts : ℤ
  pub initial_backoff : ℤ
  pub max_backoff : ℤ

-- What happens in one round: whether the context is done before the restore, after it, or during the
-- wait; whether accounts failed, and whether the attempt timed out.
pub record Round : Type 0 where
  pub done_before : Bool
  pub done_after : Bool
  pub done_waiting : Bool
  pub fails : Bool
  pub times_out : Bool

pub data Ending : Type 0 where
  restored bad_policy context_done gave_up : Ending

-- How the retry ends, how often it restored, and how long it waited each time.
pub record Retried : Type 0 where
  pub ending : Ending
  pub restores : ℕ
  pub delays : List ℤ

-- The first delay.
unfoldable pub first_backoff : Policy → ℤ
first_backoff p =
    let positive = if ltb_ℤ p.initial_backoff (pos 0) then pos 0 else p.initial_backoff in
    if ltb_ℤ (pos 0) p.max_backoff && ltb_ℤ p.max_backoff positive then p.max_backoff else positive

-- The delay after one, the next of which may have wrapped around.
unfoldable pub grown_backoff : Policy → ℤ → ℤ → ℤ
grown_backoff p backoff next =
    if ltb_ℤ next backoff || (ltb_ℤ (pos 0) p.max_backoff && ltb_ℤ p.max_backoff next)
    then p.max_backoff
    else next

unfoldable pub next_backoff : Policy → ℤ → ℤ
unfolding grown_backoff
next_backoff p backoff =
    if beq_ℤ backoff (pos 0) then backoff else grown_backoff p backoff (backoff *ℤ 2)

unfoldable pub ended : Ending → ℕ → List ℤ → Retried
ended e n delays = record { ending = e; restores = n; delays = delays }

-- The wait, and the rounds behind it.
unfoldable pub waited : ℤ → Bool → Retried → Retried
waited backoff true rest = record { ending = context_done; restores = 1; delays = backoff ∷ [] }
waited backoff false rest = record {
  ending = rest.ending;
  restores = suc rest.restores;
  delays = backoff ∷ rest.delays;
}

-- The loop, by the attempts that are left.
unfoldable pub attempts : Policy → (ℕ → Round) → ℕ → ℤ → Retried
unfolding ended waited
attempts p rounds zero backoff = ended gave_up 0 []
attempts p rounds (suc zero) backoff =
    let r = rounds 1 in
    if r.done_before
    then ended context_done 0 []
    else if r.done_after
    then ended context_done 1 []
    else if not (r.fails || r.times_out)
    then ended restored 1 []
    else ended gave_up 1 []
attempts p rounds (suc (suc left)) backoff =
    let r = rounds (suc (suc left)) in
    let rest = attempts p rounds (suc left) (next_backoff p backoff) in
    if r.done_before
    then ended context_done 0 []
    else if r.done_after
    then ended context_done 1 []
    else if not (r.fails || r.times_out)
    then ended restored 1 []
    else waited backoff r.done_waiting rest

unfoldable pub bad_backoff : Policy → Bool
bad_backoff p =
    ltb_ℤ (pos 1) p.max_attempts && (leb_ℤ p.initial_backoff (pos 0) || leb_ℤ p.max_backoff (pos 0))

-- `runRestoreRetry`. The rounds are numbered by the attempts that are left.
unfoldable pub run_restore_retry : Policy → (ℕ → Round) → Retried
unfolding ended
run_restore_retry p rounds =
    if leb_ℤ p.max_attempts (pos 0)
    then ended bad_policy 0 []
    else if bad_backoff p
    then ended bad_policy 0 []
    else attempts p rounds (pos_part p.max_attempts) (first_backoff p)

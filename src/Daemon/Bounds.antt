-- ===== src/Daemon/Bounds.antt =====
-- How often and how long the retry of the restore waits.
use wechatcopilot.Prelude.{
  ℕ, suc, zero, ◌≤◌, Bool, true, false, not, ◌||◌, [], ◌≡◌, refl, ap, ◌∙◌, inl, inr, All, arith,
  Bool-cases,
}
use wechatcopilot.Prelude.Int.{ℤ, pos, negsuc, pos_part, ◌≤ℤ◌, ◌*ℤ◌, ltb_ℤ, leb_ℤ, beq_ℤ}
use wechatcopilot.Daemon.{
  Policy, Round, Retried, Ending, first_backoff, grown_backoff, next_backoff, ended, waited,
  attempts, bad_backoff, run_restore_retry, context_done, restored, gave_up, bad_policy,
}

-- A delay of at least one and at most the maximum.
abbrev pub IsBounded : Policy → ℤ → Type 0
IsBounded p d = (pos 1 ≤ℤ d) × (d ≤ℤ p.max_backoff)

-- At most this many restores, with bounded delays between.
pub record IsWithin (p : Policy) (bound : ℕ) (r : Retried) : Type 0 where
  pub count : r.restores ≤ bound
  pub lengths : All (IsBounded p) r.delays

grown_backoff-IsBounded :
    (p : Policy) (d next : ℤ) → IsBounded p d → IsBounded p (grown_backoff p d next)
unfolding grown_backoff
grown_backoff-IsBounded p d next (h, k) = (ground arith, ground arith)

next_backoff-IsBounded : (p : Policy) (d : ℤ) → IsBounded p d → IsBounded p (next_backoff p d)
unfolding next_backoff
next_backoff-IsBounded p d h = elim (Bool-cases (beq_ℤ d (pos 0))) [
  | inl z ↦ rw z h
  | inr z ↦ rw z (grown_backoff-IsBounded p d (d *ℤ 2) h)
]

first_backoff-IsBounded :
    (p : Policy)
    → ltb_ℤ (pos 1) p.max_attempts ≡ true
    → bad_backoff p ≡ false
    → IsBounded p (first_backoff p)
unfolding first_backoff bad_backoff
first_backoff-IsBounded p more h = (ground arith, ground arith)

ended-IsWithin :
    (p : Policy) (bound n : ℕ) (e : Ending) → n ≤ bound → IsWithin p bound (ended e n [])
unfolding ended
ended-IsWithin p bound n e h = record { count = h; lengths = tt }

waited-IsWithin :
    (p : Policy) (bound : ℕ) (d : ℤ) (done : Bool) (rest : Retried)
    → IsBounded p d
    → IsWithin p bound rest
    → IsWithin p (suc bound) (waited d done rest)
unfolding waited
waited-IsWithin p bound d true rest h v = record { count = omega arith; lengths = (h, tt) }
waited-IsWithin p bound d false rest h v = record {
  count = omega (arith, v.count);
  lengths = (h, v.lengths);
}

-- A single attempt waits for nothing.
last-IsWithin : (p : Policy) (rounds : ℕ → Round) (d : ℤ) → IsWithin p 1 (attempts p rounds 1 d)
unfolding attempts
last-IsWithin p rounds d = elim (Bool-cases (rounds 1).done_before) [
  | inl h ↦ rw h (ended-IsWithin p 1 0 context_done (omega arith))
  | inr h ↦ elim (Bool-cases (rounds 1).done_after) [
    | inl k ↦ rw (h, k) (ended-IsWithin p 1 1 context_done (omega arith))
    | inr k ↦ elim (Bool-cases (not ((rounds 1).fails || (rounds 1).times_out))) [
      | inl l ↦ rw (h, k, l) (ended-IsWithin p 1 1 restored (omega arith))
      | inr l ↦ rw (h, k, l) (ended-IsWithin p 1 1 gave_up (omega arith))
    ]
  ]
]

attempts-IsWithin :
    (p : Policy) (rounds : ℕ → Round) (left : ℕ) (d : ℤ)
    → IsBounded p d
    → IsWithin p (suc left) (attempts p rounds (suc left) d)
unfolding attempts
attempts-IsWithin p rounds zero d h = last-IsWithin p rounds d
attempts-IsWithin p rounds (suc left) d h =
    let n = suc (suc left) in
    let r = rounds n in
    elim (Bool-cases r.done_before) [
      | inl b ↦ rw b (ended-IsWithin p n 0 context_done (omega arith))
      | inr b ↦ elim (Bool-cases r.done_after) [
        | inl k ↦ rw (b, k) (ended-IsWithin p n 1 context_done (omega arith))
        | inr k ↦ elim (Bool-cases (not (r.fails || r.times_out))) [
          | inl l ↦ rw (b, k, l) (ended-IsWithin p n 1 restored (omega arith))
          | inr l ↦
              rw (b, k, l)
                (waited-IsWithin p (suc left) d r.done_waiting
                  (attempts p rounds (suc left) (next_backoff p d)) h
                  (attempts-IsWithin p rounds left (next_backoff p d)
                    (next_backoff-IsBounded p d h)))
        ]
      ]
    ]

allowed : (n : ℕ) → leb_ℤ (pos (suc n)) (pos 0) ≡ false
allowed n = ground arith

refused : (n : ℕ) → leb_ℤ (negsuc n) (pos 0) ≡ true
refused n = ground arith

some_attempts :
    (p : Policy) (rounds : ℕ → Round) (n : ℕ)
    → p.max_attempts ≡ pos (suc n)
    → bad_backoff p ≡ false
    → IsWithin p (suc n) (attempts p rounds (suc n) (first_backoff p))
some_attempts p rounds zero e h = last-IsWithin p rounds (first_backoff p)
some_attempts p rounds (suc n) e h =
    attempts-IsWithin p rounds (suc n) (first_backoff p)
      (first_backoff-IsBounded p (ap (λ x. ltb_ℤ (pos 1) x) e ∙ more n) h)
  where
    more : (n : ℕ) → ltb_ℤ (pos 1) (pos (suc (suc n))) ≡ true
    more n = ground arith

-- The retry ends after at most as many restores as its policy allows, none if that is not positive, and every wait
-- between them lasts at least one nanosecond and at most the maximum of the policy, also where doubling a delay wraps
-- around.
pub run_restore_retry-IsWithin :
    (p : Policy) (rounds : ℕ → Round)
    → IsWithin p (pos_part p.max_attempts) (run_restore_retry p rounds)
unfolding run_restore_retry
run_restore_retry-IsWithin p rounds = go p.max_attempts refl
  where
    go :
        (x : ℤ)
        → p.max_attempts ≡ x
        → IsWithin p (pos_part p.max_attempts) (run_restore_retry p rounds)
    go (negsuc n) e = simp (e, refused n) (ended-IsWithin p 0 0 bad_policy (omega arith))
    go (pos zero) e = simp e (ended-IsWithin p 0 0 bad_policy (omega arith))
    go (pos (suc n)) e = elim (Bool-cases (bad_backoff p)) [
      | inl b ↦ simp (e, allowed n, b) (ended-IsWithin p (suc n) 0 bad_policy (omega arith))
      | inr b ↦ simp (e, allowed n, b) (some_attempts p rounds n e b)
    ]

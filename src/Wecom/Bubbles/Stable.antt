-- ===== src/Wecom/Bubbles/Stable.antt =====
-- When a message counts as sent.
use wechatcopilot.Prelude.{
  ℕ, Bool, true, false, Option, none, some, List, [], ◌∷◌, ◌≡◌, refl, subst, inl, inr, ◌⊎◌, Result,
  ok, err, Bool-cases, Result-cases, leb,
}
use wechatcopilot.Wecom.{UiSnapshot, Failure}
use wechatcopilot.Wecom.Fold.{Unicode}
use wechatcopilot.Wecom.Frame.{ChatFrame, validate_chat_frame}
use wechatcopilot.Wecom.Bubbles.{
  Evidence, Watch, Observation, unanswered, seen, WaitError, context_done, frame_failed,
  outgoing_bubble_evidence, same_evidence, is_confirming, is_stable, observed, round_end,
  wait_for_bubble,
}

module _ (u : Unicode) (w : Watch) where
  -- The screen shows the bound conversation, and one bubble more than before.
  pub record Confirms (s : UiSnapshot) : Type 0 where
    pub frame : ChatFrame
    pub accepted : validate_chat_frame u s w.title (some w.binding) false ≡ ok frame
    pub confirming : is_confirming w s frame ≡ true

  abbrev pub evidence : UiSnapshot → List Evidence
  evidence s = outgoing_bubble_evidence s w.text w.binding

  -- Two rounds in a row that confirm, with the same evidence.
  pub data IsConfirmed : List Observation → Type 0 where
    twice :
        {s t : UiSnapshot} {l c l' c' : Bool} {rest : List Observation}
        → Confirms s
        → Confirms t
        → same_evidence (evidence t) (evidence s) ≡ true
        → IsConfirmed (seen s l c ∷ seen t l' c' ∷ rest)
    later : {x : Observation} {rest : List Observation} → IsConfirmed rest → IsConfirmed (x ∷ rest)

  abbrev Sent : Option (Result WaitError Bool) → Type 0
  Sent o = o ≡ some (ok true)

  round-further :
      (late cancelled : Bool) (n : ℕ) (o : Option (Result WaitError Bool))
      → leb 2 n ≡ false
      → Sent (round_end late cancelled n o)
      → Sent o
  unfolding round_end
  round-further true cancelled n o h q = absurd (lost (rw h at q))
    where
      lost : ◌≡◌ {A = Option (Result WaitError Bool)} (some (ok false)) (some (ok true)) → ⊥
      lost q = cc
  round-further false true n o h q = absurd (lost (rw h at q))
    where
      lost : ◌≡◌ {A = Option (Result WaitError Bool)} (some (err context_done)) (some (ok true)) → ⊥
      lost q = cc
  round-further false false n o h q = rw h at q

  observed-unconfirmed :
      (b : Bool) (stable : Option (List Evidence)) (n : ℕ) (e : List Evidence)
      → b ≡ false
      → observed b stable n e ≡ (none, 0)
  unfolding observed
  observed-unconfirmed b stable n e h = rw h refl

  observed-changed :
      (b : Bool) (stable : Option (List Evidence)) (n : ℕ) (e : List Evidence)
      → b ≡ true
      → is_stable stable e ≡ false
      → observed b stable n e ≡ (some e, 1)
  unfolding observed
  observed-changed b stable n e h k = rw h (rw k refl)

  abbrev Ended : Bool → Bool → List Observation → Option (List Evidence) × ℕ → Type 0
  Ended l c rest next = Sent (round_end l c next.1 (wait_for_bubble u w next.0 next.1 rest))

  -- How a round goes on whose wait ends with a sent message.
  Onwards : Option (List Evidence) → UiSnapshot → List Observation → ChatFrame → Type 0
  Onwards stable t rest frame =
      ((is_confirming w t frame ≡ false) × Sent (wait_for_bubble u w none 0 rest))
      ⊎ ((is_confirming w t frame ≡ true)
          × ((is_stable stable (evidence t) ≡ true)
              ⊎ Sent (wait_for_bubble u w (some (evidence t)) 1 rest)))

  observed-Onwards :
      (stable : Option (List Evidence)) (n : ℕ) (t : UiSnapshot) (l c : Bool)
      (rest : List Observation) (frame : ChatFrame)
      → Ended l c rest (observed (is_confirming w t frame) stable n (evidence t))
      → Onwards stable t rest frame
  unfolding Onwards
  observed-Onwards stable n t l c rest frame q = elim (Bool-cases (is_confirming w t frame)) [
    | inr h ↦ inl (h, unconfirmed h)
    | inl h ↦ inr (
      h,
      elim (Bool-cases (is_stable stable (evidence t))) [
        | inl k ↦ inl k
        | inr k ↦ inr (changed h k)
      ],
    )
  ]
    where
      unconfirmed : is_confirming w t frame ≡ false → Sent (wait_for_bubble u w none 0 rest)
      unconfirmed h = round-further l c 0 (wait_for_bubble u w none 0 rest) refl (
          subst (Ended l c rest)
            (observed-unconfirmed (is_confirming w t frame) stable n (evidence t) h) q)

      changed :
          is_confirming w t frame ≡ true
          → is_stable stable (evidence t) ≡ false
          → Sent (wait_for_bubble u w (some (evidence t)) 1 rest)
      changed h k = round-further l c 1 (wait_for_bubble u w (some (evidence t)) 1 rest) refl (
          subst (Ended l c rest)
            (observed-changed (is_confirming w t frame) stable n (evidence t) h k) q)

  seen-Onwards :
      (stable : Option (List Evidence)) (n : ℕ) (t : UiSnapshot) (l c : Bool)
      (rest : List Observation)
      → Sent (wait_for_bubble u w stable n (seen t l c ∷ rest))
      → (frame : ChatFrame) × (validate_chat_frame u t w.title (some w.binding) false ≡ ok frame)
        × Onwards stable t rest frame
  unfolding wait_for_bubble
  seen-Onwards stable n t l c rest q =
      elim (Result-cases (validate_chat_frame u t w.title (some w.binding) false)) [
        | inl (frame, h) ↦
            (frame, h, observed-Onwards stable n t l c rest frame (rw (h, wait_for_bubble) at q))
        | inr (e, h) ↦ absurd (lost e (rw (h, wait_for_bubble) at q))
      ]
    where
      lost :
          (e : Failure)
          → ◌≡◌ {A = Option (Result WaitError Bool)} (some (err (frame_failed e))) (some (ok true))
          → ⊥
      lost e q = cc

  waits : (stable : Option (List Evidence)) (n : ℕ) → ¬ Sent (wait_for_bubble u w stable n [])
  unfolding wait_for_bubble
  waits stable n q = cc

  silent :
      (stable : Option (List Evidence)) (n : ℕ) (rest : List Observation)
      → ¬ Sent (wait_for_bubble u w stable n (unanswered ∷ rest))
  unfolding wait_for_bubble
  silent stable n rest q = cc

  -- A round that does not complete the confirmation leaves it to the rounds that follow.
  round-IsConfirmed :
      (stable : Option (List Evidence)) (n : ℕ) (t : UiSnapshot) (l c : Bool)
      (rest : List Observation)
      → (Sent (wait_for_bubble u w none 0 rest) → IsConfirmed rest)
      → (Confirms t
          → Sent (wait_for_bubble u w (some (evidence t)) 1 rest)
          → IsConfirmed (seen t l c ∷ rest))
      → Sent (wait_for_bubble u w stable n (seen t l c ∷ rest))
      → (Confirms t × (is_stable stable (evidence t) ≡ true)) ⊎ IsConfirmed (seen t l c ∷ rest)
  unfolding Onwards
  round-IsConfirmed stable n t l c rest first second q =
      let (frame, accepted, onwards) = seen-Onwards stable n t l c rest q in
      elim onwards [
        | inl (_, sent) ↦ inr (later (first sent))
        | inr (h, inl k) ↦ inl (record { frame = frame; accepted = accepted; confirming = h }, k)
        | inr (h, inr sent) ↦
            inr (second (record { frame = frame; accepted = accepted; confirming = h }) sent)
      ]

  -- From the state after a round without confirmation, and from that after a first confirmation.
  rounds-IsConfirmed :
      (rest : List Observation)
      → (Sent (wait_for_bubble u w none 0 rest) → IsConfirmed rest)
        × ((s : UiSnapshot) (l c : Bool)
            → Confirms s
            → Sent (wait_for_bubble u w (some (evidence s)) 1 rest)
            → IsConfirmed (seen s l c ∷ rest))
  unfolding is_stable
  rounds-IsConfirmed [] =
      (λ q. absurd (waits none 0 q), λ s l c k q. absurd (waits (some (evidence s)) 1 q))
  rounds-IsConfirmed (unanswered ∷ rest) = (
    λ q. absurd (silent none 0 rest q),
    λ s l c k q. absurd (silent (some (evidence s)) 1 rest q),
  )
  rounds-IsConfirmed (seen t l' c' ∷ rest) =
      let (first, second) = rounds-IsConfirmed rest in
      (
        λ q. elim (round-IsConfirmed none 0 t l' c' rest first (second t l' c') q) [
          | inl (_, none_stable) ↦ absurd (fresh none_stable)
          | inr confirmed ↦ confirmed
        ],
        λ s l c k q.
            elim (round-IsConfirmed (some (evidence s)) 1 t l' c' rest first (second t l' c') q) [
              | inl (confirms, same) ↦ twice k confirms same
              | inr confirmed ↦ later confirmed
            ],
      )
    where
      fresh : false ≡ true → ⊥
      fresh q = cc

-- A message counts as sent only if two screens in a row, both later than the send, show the bound conversation with a
-- composer that no longer has the text and with exactly one bubble of this text more than before, and the same bubbles.
pub wait_for_bubble-IsConfirmed :
    (u : Unicode) (w : Watch) (rounds : List Observation)
    → wait_for_bubble u w none 0 rounds ≡ some (ok true)
    → IsConfirmed u w rounds
wait_for_bubble-IsConfirmed u w rounds q = (rounds-IsConfirmed u w rounds).0 q

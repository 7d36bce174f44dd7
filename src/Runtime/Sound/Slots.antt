-- ===== src/Runtime/Sound/Slots.antt =====
-- The slots while a driver is stopped, its slot is cleared, and another driver takes it.
use wechatcopilot.Prelude.{
  String, Bool, true, false, not, ◌&&◌, Option, none, some, List, [], ◌∷◌, ◌==◌, ◌≡◌, ◌≢◌, refl,
  sym, ap, ◌∙◌, ◌⊎◌, inl, inr, All, All-map, All-of, All-at, Pairs, In, dict_get, dict_put,
  dict_remove, dict_get-put_own, dict_get-put_other, dict_get-remove, dict_get-remove_other, Dict,
  arith, eq_iff, Bool-cases, text_cases,
}
use wechatcopilot.Driver.{DriverError}
use wechatcopilot.Account.Registry.{Account}
use wechatcopilot.Runtime.{
  ActiveRuntime, Manager, Running, Error, Answers, Stopped, stop_runtime, stopped_late,
  stopped_driver, start_ingest, drop_running, running_after, still_running, keep_stopped,
  clear_slot,
}
use wechatcopilot.Runtime.Lifecycle.{take_slot, log_start}
use wechatcopilot.Runtime.Sound.{HasSlot, OnOtherPlatform, IsSlotted}

-- No driver runs on this platform.
abbrev pub IsFree : String → List Running → Type 0
IsFree platform running = All (λ (d : Running). d.platform ≢ platform) running

some_inj : {A : Type 0} {a b : A} → ◌≡◌ {A = Option A} (some a) (some b) → a ≡ b
some_inj h = cc

-- A slot that is free in a manager that is open has no driver.
pub slot-IsFree :
    (m : Manager) (platform : String)
    → m.closed ≡ false
    → dict_get m.active platform ≡ none
    → IsSlotted m
    → IsFree platform m.running
unfolding HasSlot
slot-IsFree m platform open_ empty v =
    All-map (HasSlot m) (λ (d : Running). d.platform ≢ platform) m.running
      (λ d h e. elim h [
        | inl c ↦ shut (sym c ∙ open_)
        | inr (r, s, _) ↦ lost r (sym s ∙ ap (λ x. dict_get m.active x) e ∙ empty)
      ])
      v.slots
  where
    shut : true ≡ false → ⊥
    shut q = cc

    lost : (r : ActiveRuntime) → some r ≡ none → ⊥
    lost r q = cc

abbrev IsKeyed : Dict ActiveRuntime → Type 0
IsKeyed active =
    (platform : String) (r : ActiveRuntime)
    → dict_get active platform ≡ some r
    → r.account.platform ≡ platform

dict_put-IsKeyed :
    (active : Dict ActiveRuntime) (platform : String) (r : ActiveRuntime)
    → r.account.platform ≡ platform
    → IsKeyed active
    → IsKeyed (dict_put active platform r)
dict_put-IsKeyed active platform r e k p q h = elim (text_cases platform p) [
  | inl (_, s) ↦
      ap (λ (x : ActiveRuntime). x.account.platform)
        (some_inj (
          sym h
          ∙ ap (λ x. dict_get (dict_put active platform r) x) (sym s)
          ∙ dict_get-put_own active platform r))
      ∙ e
      ∙ s
  | inr (_, n) ↦ k p q (sym (dict_get-put_other active platform p r n) ∙ h)
]

dict_remove-IsKeyed :
    (active : Dict ActiveRuntime) (platform : String)
    → IsKeyed active
    → IsKeyed (dict_remove active platform)
dict_remove-IsKeyed active platform k p q h = elim (text_cases platform p) [
  | inl (b, _) ↦ absurd (gone (rw (dict_get-remove active platform p, b) at h))
  | inr (_, n) ↦ k p q (sym (dict_get-remove_other active platform p n) ∙ h)
]
  where
    gone : none ≡ some q → ⊥
    gone x = cc

-- A driver keeps its slot when another slot changes, and when its own goes to a runtime of its account.
HasSlot-put :
    (m n : Manager) (platform : String) (r : ActiveRuntime) (d : Running)
    → n.closed ≡ m.closed
    → n.active ≡ dict_put m.active platform r
    → ((q : ActiveRuntime)
        → dict_get m.active d.platform ≡ some q
        → q.account.id ≡ d.account_id
        → platform ≡ d.platform
        → r.account.id ≡ d.account_id)
    → HasSlot m d
    → HasSlot n d
unfolding HasSlot
HasSlot-put m n platform r d c e own (inl h) = inl (c ∙ h)
HasSlot-put m n platform r d c e own (inr (q, s, i)) = inr (elim (text_cases platform d.platform) [
  | inl (_, p) ↦ (
    r,
    ap (λ x. dict_get x d.platform) e
        ∙ ap (λ x. dict_get (dict_put m.active platform r) x) (sym p)
        ∙ dict_get-put_own m.active platform r,
    own q s i p,
  )
  | inr (_, o) ↦ (
    q,
    ap (λ x. dict_get x d.platform) e ∙ dict_get-put_other m.active platform d.platform r o ∙ s,
    i,
  )
])

pub take_slot-IsSlotted :
    (a : Account) (m : Manager)
    → IsFree a.platform m.running
    → IsSlotted m
    → IsSlotted (take_slot a (log_start a m))
unfolding take_slot log_start start_ingest
take_slot-IsSlotted a m free v =
    let n = take_slot a (log_start a m) in
    let r : ActiveRuntime = record {
      account = a;
      serial = m.made;
      loops = 1;
      ingesting = true;
      stopping = false;
    } in
    record {
      slots = (
        unfold HasSlot in inr (r, dict_get-put_own m.active a.platform r, refl),
        All-of (HasSlot n) m.running (λ d i.
            HasSlot-put m n a.platform r d refl refl
              (λ q s j e. absurd (All-at (λ (x : Running). x.platform ≢ a.platform) i free (sym e)))
              (All-at (HasSlot m) i v.slots)),
      );
      alone = (
        All-map (λ (d : Running). d.platform ≢ a.platform)
            (λ (d : Running). a.platform ≢ d.platform) m.running (λ d h e. h (sym e)) free,
        v.alone,
      );
      keyed = dict_put-IsKeyed m.active a.platform r refl v.keyed;
    }

stopped_driver-account :
    (restart : Bool) (r : ActiveRuntime) (o : Option DriverError)
    → (stopped_driver restart r o).runtime.account ≡ r.account
unfolding stopped_driver start_ingest
stopped_driver-account restart r none = refl
stopped_driver-account true r (some e) = refl
stopped_driver-account false r (some e) = refl

pub stop_runtime-account :
    (w : Answers) (restart : Bool) (r : ActiveRuntime)
    → (stop_runtime w restart r).runtime.account ≡ r.account
unfolding stop_runtime stopped_late
stop_runtime-account w restart r = elim (Bool-cases (not (w.drains && w.syncs_end))) [
  | inl h ↦ rw h refl
  | inr h ↦ rw h (stopped_driver-account restart (record r { ingesting = false }) w.stop_error)
]

drop_running-All :
    (P Q : Running → Type 0) (platform id : String) (xs : List Running)
    → ((d : Running) → P d → (d.platform == platform && d.account_id == id) ≡ false → Q d)
    → All P xs
    → All Q (drop_running platform id xs)
unfolding drop_running
drop_running-All P Q platform id [] f h = tt
drop_running-All P Q platform id (d ∷ xs) f h =
    elim (Bool-cases (d.platform == platform && d.account_id == id)) [
      | inl b ↦ rw b (drop_running-All P Q platform id xs f h.1)
      | inr b ↦ rw b (f d h.0 b, drop_running-All P Q platform id xs f h.1)
    ]

drop_running-Pairs :
    (R : Running → Running → Type 0) (platform id : String) (xs : List Running)
    → Pairs R xs
    → Pairs R (drop_running platform id xs)
unfolding drop_running
drop_running-Pairs R platform id [] h = tt
drop_running-Pairs R platform id (d ∷ xs) h =
    elim (Bool-cases (d.platform == platform && d.account_id == id)) [
      | inl b ↦ rw b (drop_running-Pairs R platform id xs h.1)
      | inr b ↦ rw b (
        drop_running-All (R d) (R d) platform id xs (λ x r _. r) h.0,
        drop_running-Pairs R platform id xs h.1,
      )
    ]

pub running_after-All :
    (P : Running → Type 0) (o : Option Error) (a : Account) (xs : List Running)
    → All P xs
    → All P (running_after o a xs)
unfolding running_after
running_after-All P none a xs h = drop_running-All P P a.platform a.id xs (λ d p _. p) h
running_after-All P (some e) a xs h = h

pub running_after-Pairs :
    (R : Running → Running → Type 0) (o : Option Error) (a : Account) (xs : List Running)
    → Pairs R xs
    → Pairs R (running_after o a xs)
unfolding running_after
running_after-Pairs R none a xs h = drop_running-Pairs R a.platform a.id xs h
running_after-Pairs R (some e) a xs h = h

-- A slot may get another runtime of its account.
pub put_slot-IsSlotted :
    (m : Manager) (platform : String) (r s : ActiveRuntime)
    → dict_get m.active platform ≡ some r
    → s.account ≡ r.account
    → IsSlotted m
    → IsSlotted (record m { active = dict_put m.active platform s })
put_slot-IsSlotted m platform r s slot same v =
    let n : Manager = record m { active = dict_put m.active platform s } in
    record {
      slots =
          All-of (HasSlot n) m.running (λ d i.
            HasSlot-put m n platform s d refl refl (owned d) (All-at (HasSlot m) i v.slots));
      alone = v.alone;
      keyed =
          dict_put-IsKeyed m.active platform s
            (ap (λ (x : Account). x.platform) same ∙ v.keyed platform r slot) v.keyed;
    }
  where
    owned :
        (d : Running) (q : ActiveRuntime)
        → dict_get m.active d.platform ≡ some q
        → q.account.id ≡ d.account_id
        → platform ≡ d.platform
        → s.account.id ≡ d.account_id
    owned d q at i e =
        ap (λ (x : Account). x.id) same
        ∙ ap (λ (x : ActiveRuntime). x.account.id)
            (some_inj (sym slot ∙ ap (λ x. dict_get m.active x) e ∙ at))
        ∙ i

-- An attempt to stop the runtime of a slot keeps the slots in order.
pub keep_stopped-IsSlotted :
    (m : Manager) (platform : String) (r : ActiveRuntime) (s : Stopped)
    → dict_get m.active platform ≡ some r
    → s.runtime.account ≡ r.account
    → IsSlotted m
    → IsSlotted (keep_stopped platform s m)
unfolding keep_stopped still_running HasSlot
keep_stopped-IsSlotted m platform r s slot same v =
    let kept = put_slot-IsSlotted m platform r s.runtime slot same v in
    record {
      slots =
          running_after-All (HasSlot (keep_stopped platform s m)) s.failure s.runtime.account
            m.running kept.slots;
      alone = running_after-Pairs OnOtherPlatform s.failure s.runtime.account m.running v.alone;
      keyed = kept.keyed;
    }

-- After a stop without an error no driver is left on the platform of an open manager.
pub stopped-IsFree :
    (m : Manager) (platform : String) (r : ActiveRuntime)
    → m.closed ≡ false
    → dict_get m.active platform ≡ some r
    → IsSlotted m
    → IsFree platform (drop_running r.account.platform r.account.id m.running)
unfolding HasSlot
stopped-IsFree m platform r open_ slot v =
    drop_running-All (HasSlot m) (λ (d : Running). d.platform ≢ platform) r.account.platform
      r.account.id m.running
      (λ d h b e. elim h [
        | inl c ↦ shut (sym c ∙ open_)
        | inr (q, at, i) ↦
            let p = some_inj (sym slot ∙ ap (λ x. dict_get m.active x) (sym e) ∙ at) in
            kept d b (e ∙ sym (v.keyed platform r slot))
              (sym i ∙ sym (ap (λ (x : ActiveRuntime). x.account.id) p))
      ])
      v.slots
  where
    shut : true ≡ false → ⊥
    shut q = cc

    kept :
        (d : Running)
        → (d.platform == r.account.platform && d.account_id == r.account.id) ≡ false
        → d.platform ≡ r.account.platform
        → d.account_id ≡ r.account.id
        → ⊥
    kept d b p i =
        ground (arith, eq_iff d.platform r.account.platform, eq_iff d.account_id r.account.id)

-- A slot without a driver may be cleared.
pub clear_slot-IsSlotted :
    (m : Manager) (platform : String)
    → (m.closed ≡ true) ⊎ IsFree platform m.running
    → IsSlotted m
    → IsSlotted (clear_slot platform m)
unfolding clear_slot HasSlot
clear_slot-IsSlotted m platform free v = record {
  slots =
      All-of (HasSlot (clear_slot platform m)) m.running
        (λ d i. cleared d i (All-at (HasSlot m) i v.slots));
  alone = v.alone;
  keyed = dict_remove-IsKeyed m.active platform v.keyed;
}
  where
    cleared : (d : Running) → In d m.running → HasSlot m d → HasSlot (clear_slot platform m) d
    cleared d i (inl c) = inl c
    cleared d i (inr (q, at, j)) = elim free [
      | inl c ↦ inl c
      | inr f ↦ inr (
        q,
        dict_get-remove_other m.active platform d.platform
              (λ e. All-at (λ (x : Running). x.platform ≢ platform) i f (sym e))
            ∙ at,
        j,
      )
    ]

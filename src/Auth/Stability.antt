-- ===== src/Auth/Stability.antt =====
-- When a login counts as completed: the client was seen online again and again, for long enough.
use wechatcopilot.Prelude.{
  ℕ, suc, ◌+◌, ◌≤◌, true, false, not, Option, none, some, List, [], ◌∷◌, ◌++◌, ◌==◌, ◌≡◌, refl, sym,
  ap, subst, ◌∙◌, inl, inr, leb, arith, eq_iff, Bool-cases, leb→le, &&-true,
}
use wechatcopilot.Driver.{state_online}
use wechatcopilot.Auth.{
  AuthSnapshot, Entry, first_time, is_old, is_stable, candidate_after, note_candidate,
  note_snapshot, forget_candidate, hold_candidate, mark_completed, observe_auth_snapshot,
  online_stability_window, minimum_stable_online_observations,
}

-- Observations, the newest first.
abbrev pub Observation : Type 0
Observation = AuthSnapshot × ℕ

abbrev IsOnline : Observation → Type 0
IsOnline o = o.0.state ≡ state_online

-- The newest `n` observations are online, and the first of them was made at this time.
pub data Streak (since : ℕ) : ℕ → List Observation → Type 0 where
  starts :
      {o : Observation} {h : List Observation} → IsOnline o → o.1 ≡ since → Streak since 1 (o ∷ h)
  goes_on :
      {o : Observation} {h : List Observation} {n : ℕ}
      → IsOnline o
      → Streak since n h
      → Streak since (suc n) (o ∷ h)

abbrev NewestAt : ℕ → List Observation → Type 0
NewestAt t [] = ⊥
NewestAt t (o ∷ h) = o.1 ≡ t

-- Some stretch of the observations, up to the time of completion, was online throughout, had at least
-- three observations, and lasted at least fifteen seconds.
pub record IsConfirmed (completed_at : ℕ) (observations : List Observation) : Type 0 where
  pub later : List Observation
  pub earlier : List Observation
  pub split : observations ≡ later ++ earlier
  pub since : ℕ
  pub count : ℕ
  pub streak : Streak since count earlier
  pub newest : NewestAt completed_at earlier
  pub many : 3 ≤ count
  pub long : since + 15000000000 ≤ completed_at

unfoldable pub observe_all : Entry → List Observation → Entry
observe_all e [] = e
observe_all e ((snapshot, now) ∷ h) = (observe_auth_snapshot snapshot now (observe_all e h)).0

abbrev Follows : Option ℕ → ℕ → List Observation → Type 0
Follows none n h = Unit
Follows (some t) n h = Streak t n h

record IsTracked (e : Entry) (h : List Observation) : Type 0 where
  candidate : Follows e.online_candidate_since e.online_observations h
  done : (c : ℕ) → e.public.completed_at ≡ some c → IsConfirmed c h

later-IsConfirmed :
    (c : ℕ) (o : Observation) (h : List Observation) → IsConfirmed c h → IsConfirmed c (o ∷ h)
later-IsConfirmed c o h v = record {
  later = o ∷ v.later;
  earlier = v.earlier;
  split = ap (λ x. o ∷ x) v.split;
  since = v.since;
  count = v.count;
  streak = v.streak;
  newest = v.newest;
  many = v.many;
  long = v.long;
}

candidate_after-IsTracked :
    (since : Option ℕ) (o : Observation) (h : List Observation) (e : Entry)
    → e.online_candidate_since ≡ since
    → IsOnline o
    → Follows since e.online_observations h
    → ((c : ℕ) → e.public.completed_at ≡ some c → IsConfirmed c h)
    → IsTracked (candidate_after since o.1 e) (o ∷ h)
unfolding candidate_after
candidate_after-IsTracked none o h e q on f d = record {
  candidate = starts on refl;
  done = λ c q. later-IsConfirmed c o h (d c q);
}
candidate_after-IsTracked (some t) o h e q on f d = record {
  candidate = subst (λ x. Follows x (suc e.online_observations) (o ∷ h)) (sym q) (goes_on on f);
  done = λ c q. later-IsConfirmed c o h (d c q);
}

stable-IsConfirmed :
    (since : Option ℕ) (n : ℕ) (o : Observation) (h : List Observation)
    → leb minimum_stable_online_observations n ≡ true
    → is_old since o.1 ≡ true
    → Follows since n (o ∷ h)
    → IsConfirmed o.1 (o ∷ h)
unfolding is_old
stable-IsConfirmed none n o h m l f = absurd (no l)
  where
    no : false ≡ true → ⊥
    no p = cc
stable-IsConfirmed (some t) n o h m l f = record {
  later = [];
  earlier = o ∷ h;
  split = refl;
  since = t;
  count = n;
  streak = f;
  newest = refl;
  many = leb→le 3 n m;
  long = leb→le (t + online_stability_window) o.1 l;
}

first_time-IsConfirmed :
    (at : Option ℕ) (now : ℕ) (h : List Observation)
    → ((c : ℕ) → at ≡ some c → IsConfirmed c h)
    → IsConfirmed now h
    → (c : ℕ) → first_time at now ≡ some c
    → IsConfirmed c h
unfolding first_time
first_time-IsConfirmed none now h d v c q = subst (λ x. IsConfirmed x h) (inj q) v
  where
    inj : some now ≡ some c → now ≡ c
    inj p = cc
first_time-IsConfirmed (some t) now h d v c q = d c q

note_candidate-IsTracked :
    (o : Observation) (h : List Observation) (e : Entry)
    → IsOnline o
    → IsTracked e h
    → IsTracked (note_candidate o.1 (note_snapshot o.0 o.1 e)) (o ∷ h)
unfolding note_candidate note_snapshot
note_candidate-IsTracked o h e on v =
    candidate_after-IsTracked e.online_candidate_since o h (note_snapshot o.0 o.1 e) refl on
      v.candidate v.done

mark_completed-IsTracked :
    (o : Observation) (h : List Observation) (e : Entry)
    → is_stable o.1 e ≡ true
    → IsTracked e (o ∷ h)
    → IsTracked (mark_completed o.1 e) (o ∷ h)
unfolding mark_completed is_stable
mark_completed-IsTracked o h e k v =
    let (m, l) =
      &&-true (leb minimum_stable_online_observations e.online_observations)
        (is_old e.online_candidate_since o.1) k in
    record {
      candidate = v.candidate;
      done =
          first_time-IsConfirmed e.public.completed_at o.1 (o ∷ h) v.done
            (stable-IsConfirmed e.online_candidate_since e.online_observations o h m l v.candidate);
    }

hold_candidate-IsTracked :
    (h : List Observation) (e : Entry) → IsTracked e h → IsTracked (hold_candidate e) h
unfolding hold_candidate
hold_candidate-IsTracked h e v = record { candidate = v.candidate; done = v.done }

forget_candidate-IsTracked :
    (o : Observation) (h : List Observation) (e : Entry)
    → IsTracked e h
    → IsTracked (forget_candidate o.0 (note_snapshot o.0 o.1 e)) (o ∷ h)
unfolding forget_candidate note_snapshot
forget_candidate-IsTracked o h e v = record {
  candidate = tt;
  done = λ c q. later-IsConfirmed c o h (v.done c q);
}

observe-IsTracked :
    (o : Observation) (h : List Observation) (e : Entry)
    → IsTracked e h
    → IsTracked (observe_auth_snapshot o.0 o.1 e).0 (o ∷ h)
unfolding observe_auth_snapshot
observe-IsTracked o h e v = elim (Bool-cases (not (o.0.state == state_online))) [
  | inl n ↦ rw n (forget_candidate-IsTracked o h e v)
  | inr n ↦ rw n (
      let on : IsOnline o = (eq_iff o.0.state state_online).0 (ground arith) in
      let w = note_candidate-IsTracked o h e on v in
      let e' = note_candidate o.1 (note_snapshot o.0 o.1 e) in
      elim (Bool-cases (is_stable o.1 e')) [
        | inl k ↦ rw k (mark_completed-IsTracked o h e' k w)
        | inr k ↦ rw k (hold_candidate-IsTracked (o ∷ h) e' w)
      ])
]

observe_all-IsTracked :
    (e : Entry) (h : List Observation) → IsTracked e [] → IsTracked (observe_all e h) h
unfolding observe_all
observe_all-IsTracked e [] v = v
observe_all-IsTracked e ((snapshot, now) ∷ h) v =
    observe-IsTracked (snapshot, now) h (observe_all e h) (observe_all-IsTracked e h v)

-- A challenge that was open and had seen no client online is completed, after whatever observations,
-- only at the end of a stretch of at least three observations in a row that all saw the client online,
-- the last of them at least fifteen seconds after the first.
pub observe_all-completes_late :
    (e : Entry) (observations : List Observation) (c : ℕ)
    → e.online_candidate_since ≡ none
    → e.public.completed_at ≡ none
    → (observe_all e observations).public.completed_at ≡ some c
    → IsConfirmed c observations
observe_all-completes_late e observations c unseen unfinished done =
    let v = observe_all-IsTracked e observations (record {
      candidate = subst (λ x. Follows x e.online_observations []) (sym unseen) tt;
      done = λ d q. absurd (no (sym unfinished ∙ q));
    }) in
    v.done c done
  where
    no : {d : ℕ} → none ≡ some d → ⊥
    no p = cc

-- ===== src/Wecom/Events/Bounds.antt =====
-- The rounds and the length of a history of events.
use wechatcopilot.Prelude.{
  ℕ, suc, zero, ◌+◌, ◌≤◌, ◌<◌, Bool, true, false, ◌&&◌, Option, none, some, List, [], ◌++◌, ◌≡◌,
  inl, inr, length, length-append, arith, Result, ok, err, Bool-cases, Result-cases, nat_beq,
}
use wechatcopilot.Prelude.Int.{ℤ, pos, leb_ℤ, beq_ℤ, ◌≤ℤ◌}
use wechatcopilot.Wecom.Events.{
  Event, EventPage, EventHistory, max_events, page_limit, asked_limit, client_events, look_ahead,
  events_from, all_events,
}

module _ {E : Type 0} (ask : ℕ → ℤ → ℤ → Result E EventPage) where
  -- A page has no more events than were asked for.
  abbrev pub ObeysLimit : Type 0
  ObeysLimit =
      (call : ℕ) (cursor limit : ℤ) (page : EventPage)
      → pos 1 ≤ℤ limit
      → ask call cursor limit ≡ ok page
      → pos (length page.events) ≤ℤ limit

  -- It ends, with an error or with this many events at most.
  abbrev pub EndsWithin : ℕ → Option (Result E EventHistory) → Type 0
  EndsWithin bound none = ⊥
  EndsWithin bound (some (err e)) = Unit
  EndsWithin bound (some (ok history)) = length history.events ≤ bound

  page_fits :
      (events : List Event) (n : ℕ)
      → length events ≤ max_events
      → beq_ℤ (page_limit events) (pos 0) ≡ false
      → pos n ≤ℤ asked_limit (page_limit events)
      → n + length events ≤ max_events
  unfolding page_limit asked_limit
  page_fits events n h k q = ground arith

  full :
      (events : List Event)
      → length events ≤ max_events
      → beq_ℤ (page_limit events) (pos 0) ≡ false
      → length events < max_events
  unfolding page_limit
  full events h k = ground arith

  asks_some : (limit : ℤ) → pos 1 ≤ℤ asked_limit limit
  unfolding asked_limit
  asks_some limit = ground arith

  look_ahead-EndsWithin :
      (events : List Event) (complete : Bool) (o : Result E EventPage)
      → length events ≤ max_events
      → EndsWithin max_events (some (look_ahead ask events complete o))
  unfolding look_ahead
  look_ahead-EndsWithin events complete (err e) h = tt
  look_ahead-EndsWithin events complete (ok page) h = h

  -- Enough rounds are left for one more event in each.
  events_from-EndsWithin :
      (rounds call : ℕ) (cursor : ℤ) (events : List Event) (complete : Bool)
      → ObeysLimit
      → length events ≤ max_events
      → max_events < rounds + length events
      → EndsWithin max_events (events_from ask rounds call cursor events complete)
  unfolding events_from client_events
  events_from-EndsWithin zero call cursor events complete obeys h k = absurd (omega arith)
  events_from-EndsWithin (suc rounds) call cursor events complete obeys h k =
      elim (Bool-cases (beq_ℤ (page_limit events) (pos 0))) [
        | inl b ↦
            rw b (look_ahead-EndsWithin events complete (ask call cursor (asked_limit (pos 1))) h)
        | inr b ↦ rw b (elim (Result-cases (ask call cursor (asked_limit (page_limit events)))) [
          | inr (e, a) ↦ rw a tt
          | inl (page, a) ↦
              let fits = page_fits events (length page.events) h b (
                obeys call cursor (asked_limit (page_limit events)) page
                  (asks_some (page_limit events)) a) in
              let sum = length-append events page.events in
              rw a (elim (Bool-cases (nat_beq (length page.events) 0)) [
                | inl z ↦ rw z h
                | inr z ↦ rw z (elim (Bool-cases (leb_ℤ page.next_cursor cursor)) [
                  | inl l ↦ rw l (omega (arith, sum))
                  | inr l ↦ rw l (
                      events_from-EndsWithin rounds (suc call) page.next_cursor
                        (events ++ page.events) (complete && page.complete) obeys
                        (omega (arith, sum)) (grown events page.events z sum k))
                ])
              ])
        ])
      ]
    where
      grown :
          (xs ys : List Event)
          → nat_beq (length ys) 0 ≡ false
          → length (xs ++ ys) ≡ length xs + length ys
          → max_events < suc rounds + length xs
          → max_events < rounds + length (xs ++ ys)
      grown xs ys z sum k = ground arith

-- If no page has more events than were asked for, 2001 rounds end the loop, whatever the companion answers, with an error
-- or with a history of at most 2000 events.
pub all_events-EndsWithin :
    {E : Type 0} (ask : ℕ → ℤ → ℤ → Result E EventPage)
    → ObeysLimit ask
    → EndsWithin ask max_events (all_events ask 2001)
unfolding all_events
all_events-EndsWithin ask obeys =
    events_from-EndsWithin ask 2001 0 (pos 0) [] true obeys (omega arith) (omega arith)

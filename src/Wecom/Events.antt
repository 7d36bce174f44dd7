-- ===== src/Wecom/Events.antt =====
-- internal/driver/wecom/driver.go: allEvents, the pages of the journal of the companion.
pub mod Bounds
use wechatcopilot.Prelude.{
  ℕ, suc, zero, ◌+◌, ◌-◌, ◌≤◌, ◌<◌, String, Bool, true, false, not, ◌&&◌, ◌||◌, Option, none, some,
  List, [], ◌∷◌, ◌++◌, ◌≡◌, refl, sym, ◌∙◌, ap, subst, inl, inr, length, length-append, arith,
  Result, ok, err, if◌then◌else◌, Bool-cases, Result-cases, nat_beq,
}
use wechatcopilot.Prelude.Int.{ℤ, pos, sub_ℕ, ltb_ℤ, leb_ℤ, beq_ℤ, ◌≤ℤ◌, pos_part, neg_part}

-- `CompanionEvent`, but for the time of posting.
pub record Event : Type 0 where
  pub sequence : ℤ
  pub kind : String
  pub package_name : String
  pub conversation_key : String
  pub conversation : String
  pub sender : String
  pub title : String
  pub text : String
  pub openable : Bool
  pub gap_before : Bool

pub record EventPage : Type 0 where
  pub events : List Event
  pub next_cursor : ℤ
  pub complete : Bool

pub record EventHistory : Type 0 where
  pub events : List Event
  pub complete : Bool

abbrev pub max_events : ℕ
max_events = 2000

-- The limit of the next request; lengths are far from the bounds of an int.
unfoldable pub page_limit : List Event → ℤ
page_limit events =
    let remaining = sub_ℕ max_events (length events) in
    if ltb_ℤ remaining (pos 500) then remaining else pos 500

-- `CompanionClient.Events`: the limit that is asked for.
unfoldable pub asked_limit : ℤ → ℤ
asked_limit limit = if leb_ℤ limit (pos 0) || ltb_ℤ (pos 500) limit then pos 100 else limit

-- What the companion answers to a request for the events after a cursor, by the number of the request.
module _ {E : Type 0} (ask : ℕ → ℤ → ℤ → Result E EventPage) where
  unfoldable pub client_events : ℕ → ℤ → ℤ → Result E EventPage
  client_events call cursor limit = ask call cursor (asked_limit limit)

  -- The look-ahead at a full journal.
  unfoldable pub look_ahead : List Event → Bool → Result E EventPage → Result E EventHistory
  look_ahead events complete (err e) = err e
  look_ahead events complete (ok page) = ok (record {
    events = events;
    complete = complete && page.complete && nat_beq (length page.events) 0;
  })

  -- One round of the loop after another; nothing if the rounds do not suffice.
  unfoldable pub events_from : ℕ → ℕ → ℤ → List Event → Bool → Option (Result E EventHistory)
  events_from zero call cursor events complete = none
  events_from (suc rounds) call cursor events complete =
      if beq_ℤ (page_limit events) (pos 0)
      then some (look_ahead events complete (client_events call cursor (pos 1)))
      else elim (client_events call cursor (page_limit events)) [
        | err e ↦ some (err e)
        | ok page ↦
            (let complete' = complete && page.complete in
              let events' = events ++ page.events in
              let further = events_from rounds (suc call) page.next_cursor events' complete' in
              if nat_beq (length page.events) 0
              then some (ok (record { events = events; complete = complete' }))
              else if leb_ℤ page.next_cursor cursor
              then some (ok (record { events = events'; complete = false }))
              else further)
      ]

  -- `allEvents`
  unfoldable pub all_events : ℕ → Option (Result E EventHistory)
  all_events rounds = events_from rounds 0 (pos 0) [] true

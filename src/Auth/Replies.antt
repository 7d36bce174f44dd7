-- ===== src/Auth/Replies.antt =====
-- What the login page shows, and what it invites the user to try again.
use wechatcopilot.Prelude.{
  ℕ, String, true, false, ◌||◌, Option, none, some, List, ◌==◌, ◌≡◌, refl, ap, inl, inr, arith,
  Bool-cases,
}
use wechatcopilot.Driver.{
  DriverError, FailureKind, state_online, invalid_argument, auth_required, client_incompatible,
  target_ambiguous, user_action_required, stale, driver_unavailable, unsupported, not_found,
  send_uncertain, classify_failure, auth_action_was_consumed,
}
use wechatcopilot.Driver as Driver
use wechatcopilot.Auth.{AuthSnapshot, Entry, is_gone, observe_auth_snapshot}
use wechatcopilot.Auth.Actions.{auth_action_definitively_rejected, definitive_kind, is_definitive}
use wechatcopilot.Auth.Pages.{
  ImageReply, image_gone, image_png, handle_image, classified_reply, found_reply, kind_reply,
}

kind_reply-retryable :
    (k : FailureKind) → (kind_reply k).retryable ≡ true → definitive_kind k ≡ true
unfolding kind_reply definitive_kind
kind_reply-retryable invalid_argument h = refl
kind_reply-retryable auth_required h = refl
kind_reply-retryable client_incompatible h = refl
kind_reply-retryable target_ambiguous h = refl
kind_reply-retryable unsupported h = h
kind_reply-retryable Driver.confirmation_required h = h
kind_reply-retryable user_action_required h = refl
kind_reply-retryable not_found h = h
kind_reply-retryable stale h = refl
kind_reply-retryable driver_unavailable h = refl
kind_reply-retryable send_uncertain h = h

found_reply-retryable :
    (o : Option FailureKind) → (found_reply o).retryable ≡ true → is_definitive o ≡ true
unfolding found_reply is_definitive
found_reply-retryable none h = h
found_reply-retryable (some k) h = kind_reply-retryable k h

-- When an error of the driver that is not marked as consumed is answered as one that the user may try
-- again, it is one after which the marks of the action are taken back.
pub classified_reply-retryable :
    (e : DriverError)
    → auth_action_was_consumed e ≡ false
    → (classified_reply e).retryable ≡ true
    → auth_action_definitively_rejected e ≡ true
unfolding classified_reply auth_action_definitively_rejected
classified_reply-retryable e n h = rw n (found_reply-retryable (classify_failure e) h)

-- An error that is marked as consumed may be answered as one that the user may try again, though the
-- marks of the action stay.
consumed-retryable :
    let e : DriverError = record { message = ""; failure = some stale; consumed = true } in
    ((classified_reply e).retryable ≡ true) × (auth_action_definitively_rejected e ≡ false)
unfolding classified_reply auth_action_definitively_rejected classify_failure
    auth_action_was_consumed found_reply is_definitive kind_reply definitive_kind
consumed-retryable = (refl, refl)

not_png :
    {f g : Entry} {bytes : List ℕ}
    → ◌≡◌ {A = Entry × ImageReply} (f, image_gone) (g, image_png bytes)
    → ⊥
not_png {bytes} p = clash (ap (λ (x : Entry × ImageReply). x.1) p)
  where
    clash : image_gone ≡ image_png bytes → ⊥
    clash q = cc

-- The login page shows an image only of a screen that is not online, in a challenge that was in use
-- when the image was asked for.
pub handle_image-hides :
    (id : Option String) (now now' : ℕ) (e e' f : Entry) (snapshot : AuthSnapshot)
    (meanwhile : Entry → Entry) (bytes : List ℕ)
    → handle_image id now e (some snapshot) now' e' meanwhile ≡ (f, image_png bytes)
    → (snapshot.state == state_online ≡ false) × (is_gone now e ≡ false)
unfolding handle_image
handle_image-hides id now now' e e' f snapshot meanwhile bytes h =
    let observed = (observe_auth_snapshot snapshot now' e').0 in
    elim (Bool-cases (is_gone now e)) [
      | inl g ↦ absurd (not_png (rw g at h))
      | inr g ↦ elim (Bool-cases (is_gone now' observed || snapshot.state == state_online)) [
        | inl k ↦ absurd (not_png (rw (g, k) at h))
        | inr k ↦ (ground arith, g)
      ]
    ]

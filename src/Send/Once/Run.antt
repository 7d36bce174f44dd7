-- ===== src/Send/Once/Run.antt =====
-- Over a whole history of the service no message is sent a second time.
use wechatcopilot.Prelude.{
  String, true, Option, List, [], ◌∷◌, ◌≡◌, ◌≢◌, refl, sym, subst, All, All-at, Pairs, Pairs-at, In,
  ◌++◌,
}
use wechatcopilot.Account.Registry.{Account, Store}
use wechatcopilot.Account.Calls.{
  Call, step, adds, activates, deactivates, reports, begins_delete, records_failure,
  finishes_delete,
}
use wechatcopilot.Account.Marker.{Unfinished}
use wechatcopilot.Account.Deletion.{Root}
use wechatcopilot.Journal.{Codec, Journal}
use wechatcopilot.Send.Transactions.{Service, Sending, prune_transactions_locked}
use wechatcopilot.Send.Transactions.Frame.{prune-KeepsSends}
use wechatcopilot.Send.History.{
  Event, commits, sweeps, prepares, registers, journals_after, keep_prepared, happen, run_events,
}
use wechatcopilot.Send.Once.{IsOnce, IsHeld, RulesOut, KeepsSends-IsOnce}
use wechatcopilot.Send.Once.Commit.{commit_send-IsOnce}

-- No deletion of an account is finished.
abbrev pub KeepsAccounts : Event → Type 0
KeepsAccounts (registers now call) = Unfinished call
KeepsAccounts _ = Unit

module _ (c : Codec) where
  journals-kept :
      (call : Call) (t : Store) (j : String → Journal c)
      → Unfinished call
      → journals_after c call t j ≡ j
  unfolding journals_after
  journals-kept (adds _ _ _) t j u = refl
  journals-kept (activates _ _) t j u = refl
  journals-kept (deactivates _ _) t j u = refl
  journals-kept (begins_delete _ _) t j u = refl
  journals-kept (reports _ _ _) t j u = refl
  journals-kept (records_failure _ _ _) t j u = refl
  journals-kept (finishes_delete _ _) t j u = absurd u

  module _ (relative : Root → String → Option String) (listed : List Account → List Account) where
    happen-IsOnce :
        (s : Service c) (e : Event)
        → KeepsAccounts e
        → IsOnce c s
        → IsOnce c (happen c relative listed s e)
    unfolding happen keep_prepared
    happen-IsOnce s (commits w id key confirmed) u v =
        commit_send-IsOnce c listed w s id key confirmed v
    happen-IsOnce s (sweeps now removed) u v =
        KeepsSends-IsOnce c s (prune_transactions_locked now removed s)
          (prune-KeepsSends now removed s) v
    happen-IsOnce s (prepares now removed t) u v =
        let k = prune-KeepsSends now removed s in
        KeepsSends-IsOnce c s (keep_prepared c now removed t s)
          (record { same_journals = k.same_journals; same_sendings = k.same_sendings }) v
    happen-IsOnce s (registers now call) u v =
        KeepsSends-IsOnce c s (happen c relative listed s (registers now call))
          (record {
            same_journals = journals-kept call (step relative s.accounts now call) s.journals u;
            same_sendings = refl;
          })
          v

    run_events-IsOnce :
        (s : Service c) (events : List Event)
        → All KeepsAccounts events
        → IsOnce c s
        → IsOnce c (run_events c relative listed s events)
    unfolding run_events
    run_events-IsOnce s [] u v = v
    run_events-IsOnce s (e ∷ rest) u v =
        run_events-IsOnce (happen c relative listed s e) rest u.1 (happen-IsOnce s e u.0 v)

    -- Once a call of a driver may have sent, no later call for the same account is made under the same
    -- idempotency key or for the same transaction, in every history that begins with no call made and
    -- finishes no deletion of an account.
    pub run_events-sends_once :
        (s : Service c) (events : List Event) (before after : List Sending) (e f : Sending)
        → s.sendings ≡ []
        → All KeepsAccounts events
        → (run_events c relative listed s events).sendings ≡ before ++ e ∷ after
        → In f after
        → e.maybe_sent ≡ true
        → e.account_id ≡ f.account_id
        → (e.idempotency_key ≢ f.idempotency_key) × (e.transaction_id ≢ f.transaction_id)
    run_events-sends_once s events before after e f none_made u split i =
        let v : IsOnce c s = record {
          held = subst (All (IsHeld c s)) (sym none_made) tt;
          once = subst (Pairs (RulesOut c)) (sym none_made) tt;
        } in
        All-at (RulesOut c e) i (
          Pairs-at (RulesOut c) before e after
            (subst (Pairs (RulesOut c)) split (run_events-IsOnce s events u v).once))

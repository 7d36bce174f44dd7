-- ===== src/Send/History.antt =====
-- What happens to a service between its start and its end: commits, preparations, sweeps, and calls
-- of the account registry.
use wechatcopilot.Prelude.{
  ℕ, String, Bool, Option, List, [], ◌∷◌, contains, if◌then◌else◌, dict_put,
}
use wechatcopilot.Account.Registry.{Account, Store}
use wechatcopilot.Account.Calls.{Call, step, finishes_delete}
use wechatcopilot.Account.Deletion.{Root}
use wechatcopilot.Journal.{Codec, Journal}
use wechatcopilot.Send.Transactions.{Service, PreparedTransaction, prune_transactions_locked}
use wechatcopilot.Send.Commit.{World, commit_send}

pub data Event : Type 0 where
  commits : World → String → String → Bool → Event
  sweeps : ℕ → (String → Bool) → Event
  prepares : ℕ → (String → Bool) → PreparedTransaction → Event
  registers : ℕ → Call → Event

module _ (c : Codec) where
  -- A journal lies in the directory of its account, which the end of a deletion removes.
  unfoldable pub journals_after : Call → Store → (String → Journal c) → String → Journal c
  journals_after (finishes_delete value r) t journals id =
      if contains id t.account_dirs then journals id else []
  journals_after _ t journals id = journals id

  -- The end of `PrepareSend`, which keeps the new transaction.
  unfoldable pub keep_prepared : ℕ → (String → Bool) → PreparedTransaction → Service c → Service c
  keep_prepared now removed t s =
      let s' = prune_transactions_locked now removed s in
      record s' { transactions = dict_put s'.transactions t.preview.id t }

  module _ (relative : Root → String → Option String) (listed : List Account → List Account) where
    unfoldable pub happen : Service c → Event → Service c
    unfolding journals_after
    happen s (commits w id key confirmed) = (commit_send c listed w s id key confirmed).0
    happen s (sweeps now removed) = prune_transactions_locked now removed s
    happen s (prepares now removed t) = keep_prepared now removed t s
    happen s (registers now call) =
        let t = step relative s.accounts now call in
        record s { accounts = t; journals = journals_after call t s.journals }

    unfoldable pub run_events : Service c → List Event → Service c
    unfolding happen
    run_events s [] = s
    run_events s (e ∷ rest) = run_events (happen s e) rest

-- ===== src/Account/Calls.antt =====
-- The calls that change the registry, as one step function over their arguments and over what the
-- system answers.
use wechatcopilot.Prelude.{ℕ, String, Bool, Option, List, [], ◌∷◌}
use wechatcopilot.Driver.{Platform, Status}
use wechatcopilot.Account.Registry.{Store}
use wechatcopilot.Account.Update.{activate, deactivate, update_status}
use wechatcopilot.Account.Deletion.{
  Root, Removal, begin_delete, record_delete_failure, finalize_delete,
}
use wechatcopilot.Account.Add.{Chance, add}

-- The last argument of most says whether the write of the registry file succeeds.
pub data Call : Type 0 where
  adds : Chance → String → Platform → Call
  activates deactivates begins_delete : String → Bool → Call
  reports : String → Status → Bool → Call
  records_failure : String → Option String → Bool → Call
  finishes_delete : String → Removal → Call

module _ (relative : Root → String → Option String) where
  unfoldable pub step : Store → ℕ → Call → Store
  step s now (adds c alias platform) = (add s c alias platform now).0
  step s now (activates value written) = (activate s value now written).0
  step s now (deactivates value written) = (deactivate s value now written).0
  step s now (reports id status written) = (update_status s id status now written).0
  step s now (begins_delete value written) = (begin_delete s value now written).0
  step s now (records_failure id failure written) =
      (record_delete_failure s id failure now written).0
  step s now (finishes_delete value r) = (finalize_delete relative s value r).0

  unfoldable pub run : Store → List (ℕ × Call) → Store
  run s [] = s
  run s ((now, c) ∷ rest) = run (step s now c) rest

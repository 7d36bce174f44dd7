-- ===== src/Runtime.antt =====
-- internal/runtime/manager.go: the manager of the drivers that run, one for each platform at most. The
-- calls on one platform are serialized by its lock, and each is one step here; calls on the two platforms
-- do not overlap here.
pub mod Lifecycle
pub mod Closing
pub mod Sound
pub mod Rollback
pub mod Taken
mod Examples
use wechatcopilot.Prelude.{
  ℕ, suc, String, Bool, true, false, not, ◌&&◌, ◌||◌, Option, none, some, List, [], ◌∷◌, ◌++◌, ◌==◌,
  nat_beq, Dict, dict_get, dict_put, dict_remove, if◌then◌else◌, Result, ok, err,
}
use wechatcopilot.Driver.{Platform, Status, DriverError, state_degraded}
use wechatcopilot.Account.Registry.{Account, Store}
use wechatcopilot.Account.Registry as Registry

-- `serial` tells apart the runtimes that the manager made. `loops` counts the ingest loops of one, whose
-- last has not been cancelled if `ingesting`.
pub record ActiveRuntime : Type 0 where
  pub account : Account
  pub serial : ℕ
  pub loops : ℕ
  pub ingesting : Bool
  pub stopping : Bool

-- A goroutine of `restartIngestAfterExit` that waits for this loop of this runtime to exit.
pub record Repair : Type 0 where
  pub platform : Platform
  pub account_id : String
  pub serial : ℕ
  pub loops : ℕ

-- A driver that `Start` started without an error.
pub record Running : Type 0 where
  pub platform : Platform
  pub account_id : String

-- `running` is what was started and not stopped without an error since.
pub record Manager : Type 0 where
  pub accounts : Store
  pub factories : List Platform
  pub active : Dict ActiveRuntime
  pub closed : Bool
  pub made : ℕ
  pub repairs : List Repair
  pub running : List Running

pub data Error : Type 0 where
  registry : Registry.Error → Error
  driver_failed : DriverError → Error
  os_failed : String → Error
  context_done manager_closed no_driver not_active still_active no_purger : Error

-- What the system and the drivers answer during one call. `drains` says that the ingest loop exits, and
-- `syncs_end` that an explicit sync does, before the context is done; the three `written` say whether
-- the registry file can be written by `Activate`, by `UpdateStatus` and by `Deactivate`.
pub record Answers : Type 0 where
  pub now : ℕ
  pub locks : Bool
  pub drains : Bool
  pub syncs_end : Bool
  pub stop_error : Option DriverError
  pub mkdir_error : Option String
  pub factory_error : Option DriverError
  pub start_error : Option DriverError
  pub status : Result DriverError Status
  pub activate_written : Bool
  pub status_written : Bool
  pub deactivate_written : Bool

-- The status that stands for an error.
unfoldable pub degraded : ℕ → String → Status
degraded now reason = record {
  state = state_degraded;
  identity = none;
  reason = reason;
  client_version = "";
  observed_at = now;
}

-- `startIngest`
unfoldable pub start_ingest : ActiveRuntime → ActiveRuntime
start_ingest r = record r { ingesting = true; loops = suc r.loops }

pub record Stopped : Type 0 where
  pub runtime : ActiveRuntime
  pub repairs : List Repair
  pub failure : Option Error

unfoldable pub repair_of : ActiveRuntime → Repair
repair_of r = record {
  platform = r.account.platform;
  account_id = r.account.id;
  serial = r.serial;
  loops = r.loops;
}

-- The end of `stopRuntime` when the context is done too early.
unfoldable pub stopped_late : Bool → ActiveRuntime → Stopped
unfolding repair_of
stopped_late restart r = record {
  runtime = r;
  repairs = if restart then repair_of r ∷ [] else [];
  failure = some context_done;
}

unfoldable pub stopped_driver : Bool → ActiveRuntime → Option DriverError → Stopped
unfolding start_ingest
stopped_driver restart r none = record {
  runtime = record r { stopping = true };
  repairs = [];
  failure = none;
}
stopped_driver restart r (some e) = record {
  runtime =
      if restart
      then start_ingest (record r { stopping = false })
      else record r { stopping = true };
  repairs = [];
  failure = some (driver_failed e);
}

-- `stopRuntime`
unfoldable pub stop_runtime : Answers → Bool → ActiveRuntime → Stopped
unfolding stopped_late stopped_driver
stop_runtime w restart r =
    let cancelled = record r { ingesting = false } in
    if not (w.drains && w.syncs_end)
    then stopped_late restart cancelled
    else stopped_driver restart cancelled w.stop_error

-- What is left running when the driver of an account has stopped.
unfoldable pub drop_running : String → String → List Running → List Running
drop_running platform id [] = []
drop_running platform id (d ∷ rest) =
    let rest' = drop_running platform id rest in
    if d.platform == platform && d.account_id == id then rest' else d ∷ rest'

unfoldable pub running_after : Option Error → Account → List Running → List Running
unfolding drop_running
running_after none a running = drop_running a.platform a.id running
running_after (some e) a running = running

unfoldable pub still_running : Stopped → List Running → List Running
unfolding running_after
still_running s running = running_after s.failure s.runtime.account running

-- The runtime stays in its slot, as the attempt to stop it left it.
unfoldable pub keep_stopped : Platform → Stopped → Manager → Manager
unfolding still_running
keep_stopped platform s m = record m {
  active = dict_put m.active platform s.runtime;
  repairs = m.repairs ++ s.repairs;
  running = still_running s m.running;
}

-- `delete(m.active, platform)`
unfoldable pub clear_slot : Platform → Manager → Manager
clear_slot platform m = record m { active = dict_remove m.active platform }

-- The body of `restartIngestAfterExit` when the loop has exited.
unfoldable pub same_loop : Repair → Option ActiveRuntime → Bool
same_loop p none = false
same_loop p (some r) = nat_beq r.serial p.serial && nat_beq r.loops p.loops

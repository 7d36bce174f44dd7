-- ===== src/Send/Examples.antt =====
-- Runs of the send service, and its theorems at a service with one account.
use wechatcopilot.Prelude.{
  length, ◌≤◌, String, Bool, true, false, Option, none, some, List, [], ◌∷◌, ◌≡◌, refl, sym, ◌≢◌,
  ok, here, is_blank, dict_get, dict_put, dict_remove, contains,
}
use wechatcopilot.Driver.{
  Attachment, SendResult, DriverError, platform_wechat, state_online, stale, classify_failure,
}
use wechatcopilot.Account.Registry.{Account, Store}
use wechatcopilot.Account.Deletion.{Root}
use wechatcopilot.Account.Calls.{activates, step}
use wechatcopilot.Account.Update.{
  resolve, find_account, activate, activate_loop, start_target, halt_rival,
}
use wechatcopilot.Send.Failure.{classified_driver_error}
use wechatcopilot.Journal.{
  Codec, Journal, in_flight, get_send_result_for_transaction, row_of_transaction, get_send_result,
  row_of_key, reserve_send, insert_row, admits, encode, decode, delete_send_reservation,
  delete_rows, finalize_send, update_rows, is_reservation,
}
use wechatcopilot.Send.Transactions.{
  Service, PreparedTransaction, PreparedAttachment, Sending, release_transaction_commit,
  prune_transactions_locked, cleanup_transaction, cleanup_transaction_locked,
}
use wechatcopilot.Send.Commit.{
  World, commit_send, claim, commit_claimed, with_account, service_account, open_index,
  with_transaction_result, with_key_result, with_driver, dispatch, settle, settle_unsent,
  settle_sent, log_sending, put_journal, request_of, definitely_unsent, may_have_sent,
  mark_unverified, send_outcome, find_committed_send,
}
use wechatcopilot.Send.History.{
  Event, commits, prepares, registers, run_events, keep_prepared, happen,
}
use wechatcopilot.Journal.Roundtrip.{
  delete_send_reservation-reserve_send, get_send_result-finalize_send,
}
use wechatcopilot.Send.Staging.{
  SourceFile, Disk, written, copied, copy_of, stage_file, stage_one, stage_each, synced,
  stage_send_attachments, total_size, stage_send_attachments-bounds,
}
use wechatcopilot.Send.Answers.{commit_send-verified}
use wechatcopilot.Send.Once.Run.{run_events-sends_once}

-- Results that are stored as they are.
abbrev plain : Codec
plain = record {
  Json = SendResult;
  marshal = λ r. some r;
  unmarshal = λ r. some r;
  unmarshal-marshal = λ r j h. sym h;
}

abbrev work : Account
work = record {
  id = "work-id";
  alias = "work";
  platform = platform_wechat;
  active = true;
  state = state_online;
  identity = none;
  created_at = 0;
  updated_at = 0;
  last_error = "";
  client_version = "";
  deleting = false;
}

abbrev accounts : Store
accounts = record {
  registry = record { version = 1; accounts = work ∷ [] };
  saved = none;
  account_dirs = "work-id" ∷ [];
  runtime_dirs = [];
}

abbrev fresh : Service plain
fresh = record {
  accounts = accounts;
  transactions = [];
  stage_dirs = [];
  journals = λ id. [];
  sendings = [];
}

abbrev hello : String → PreparedTransaction
hello id = record {
  preview = record {
    id = id;
    account_id = "work-id";
    account_alias = "work";
    conversation_id = "c1";
    conversation_title = "friends";
    text = "hello";
    attachments = [];
    share_surface_id = "";
    warnings = [];
    request_hash = "h1";
    expires_at = 100;
  };
  attachments = [];
  stage_dir = "";
  committing = false;
}

-- Everything works; the driver answers with the given result and error.
abbrev world : SendResult → Option DriverError → World
world r e = record {
  now = 10;
  later = 11;
  opens = λ id. true;
  closes = λ id. true;
  reads_transaction = λ id. true;
  reads_key = true;
  reserves = true;
  deletes = true;
  finalizes = true;
  removes_expired = true;
  removes_done = true;
  removes_released = true;
  driver = some (λ request. (r, e));
}

abbrev sent : SendResult
sent = record { message_id = "m1"; verified = true; uncertain = false; detail = "" }

abbrev unclear : SendResult
unclear = record { message_id = ""; verified = false; uncertain = false; detail = "" }

abbrev out_of_date : DriverError
out_of_date = record { message = "page changed"; failure = some stale; consumed = false }

abbrev no_path : Root → String → Option String
no_path root id = none

abbrev as_listed : List Account → List Account
as_listed accounts = accounts

-- A first attempt that sends nothing, a second whose end is not known, a repetition, and the commit of
-- another transaction under another key.
abbrev four_commits : List Event
four_commits =
    prepares 1 (λ id. true) (hello "t1")
    ∷ commits (world unclear (some out_of_date)) "t1" "key" true
    ∷ commits (world unclear none) "t1" "key" true
    ∷ registers 12 (activates "work" true)
    ∷ commits (world sent none) "t1" "key" true
    ∷ prepares 13 (λ id. true) (hello "t2")
    ∷ commits (world sent none) "t2" "other" true
    ∷ []

abbrev made : String → String → Bool → Sending
made id key maybe = record {
  account_id = "work-id";
  transaction_id = id;
  idempotency_key = key;
  maybe_sent = maybe;
}

-- The repetition does not reach the driver.
four_commits-calls :
    (run_events plain no_path as_listed fresh four_commits).sendings
    ≡ made "t1" "key" false ∷ made "t1" "key" true ∷ made "t2" "other" true ∷ []
unfolding run_events commit_send is_blank claim dict_get keep_prepared dict_put commit_claimed
    release_transaction_commit with_account service_account resolve prune_transactions_locked
    open_index with_transaction_result get_send_result_for_transaction row_of_transaction
    with_key_result get_send_result row_of_key with_driver reserve_send insert_row admits encode
    decode dispatch settle settle_unsent settle_sent log_sending put_journal request_of
    definitely_unsent may_have_sent mark_unverified delete_send_reservation delete_rows
    finalize_send update_rows is_reservation cleanup_transaction cleanup_transaction_locked
    dict_remove send_outcome happen step classified_driver_error classify_failure find_account
    find_committed_send contains activate activate_loop start_target halt_rival
four_commits-calls = refl

run_events-sends_once_example :
    ((made "t1" "key" true).idempotency_key ≢ (made "t2" "other" true).idempotency_key)
    × ((made "t1" "key" true).transaction_id ≢ (made "t2" "other" true).transaction_id)
run_events-sends_once_example =
    run_events-sends_once plain no_path as_listed fresh four_commits (made "t1" "key" false ∷ [])
      (made "t2" "other" true ∷ []) (made "t1" "key" true) (made "t2" "other" true) refl
      (tt, (tt, (tt, (tt, (tt, (tt, (tt, tt))))))) four_commits-calls here refl refl

abbrev prepared : Service plain
prepared = run_events plain no_path as_listed fresh (prepares 1 (λ id. true) (hello "t1") ∷ [])

abbrev committed : Service plain
committed = (commit_send plain as_listed (world sent none) prepared "t1" "key" true).0

prepared-sent :
    commit_send plain as_listed (world sent none) prepared "t1" "key" true
    ≡ (committed, (sent, none))
unfolding run_events commit_send is_blank claim dict_get keep_prepared dict_put commit_claimed
    release_transaction_commit with_account service_account resolve prune_transactions_locked
    open_index with_transaction_result get_send_result_for_transaction row_of_transaction
    with_key_result get_send_result row_of_key with_driver reserve_send insert_row admits encode
    decode dispatch settle settle_unsent settle_sent log_sending put_journal request_of
    definitely_unsent may_have_sent mark_unverified delete_send_reservation delete_rows
    finalize_send update_rows is_reservation cleanup_transaction cleanup_transaction_locked
    dict_remove send_outcome happen step classified_driver_error classify_failure find_account
    find_committed_send contains
prepared-sent = refl

commit_send-verified_example : (sent.verified ≡ true) × (sent.uncertain ≡ false)
commit_send-verified_example =
    commit_send-verified plain as_listed (world sent none) prepared committed "t1" "key" true sent
      prepared-sent

-- The statements that the journal's theorems are applied to.
abbrev reserved : Journal plain
reserved =
    record {
      idempotency_key = "key";
      transaction_id = "t1";
      request_hash = "h1";
      state = in_flight;
      result_json = unclear;
    }
    ∷ []

reserve : reserve_send plain true [] "key" "t1" "h1" unclear ≡ ok reserved
unfolding reserve_send insert_row admits encode
reserve = refl

encodes : encode plain sent ≡ ok sent
unfolding encode
encodes = refl

delete_send_reservation-reserve_send_example :
    delete_send_reservation plain true reserved "key" "t1" "h1" ≡ ([], ok tt)
delete_send_reservation-reserve_send_example =
    delete_send_reservation-reserve_send plain true [] reserved "key" "t1" "h1" unclear reserve

get_send_result-finalize_send_example :
    let (settled, done) = finalize_send plain true reserved "key" "t1" "h1" sent in
    (done ≡ ok tt)
    × (get_send_result plain true settled "key" "h1" ≡ ok (some sent))
    × (get_send_result_for_transaction plain true settled "t1" ≡ ok (some ("key", sent)))
get_send_result-finalize_send_example =
    get_send_result-finalize_send plain true [] reserved "key" "t1" "h1" unclear sent sent reserve
      encodes

abbrev note_file : SourceFile
note_file = record {
  opens = true;
  stats = true;
  is_regular = true;
  stat_size = 5;
  creates = true;
  copies = true;
  read_size = 7;
  digest = λ n. "digest";
}

abbrev disk : Disk
disk = record {
  clean = λ path. path;
  base = λ path. "note.txt";
  is_absolute = λ path. true;
  is_valid = λ name. true;
  file = λ index path. note_file;
  destination = λ index. "01.blob";
  makes_directory = true;
  syncs_directory = true;
}

abbrev note : Attachment
note = record { kind = "file"; name = "mine"; size = 0; local_path = "/note.txt" }

abbrev note_preview : PreparedAttachment
note_preview = record { name = "note.txt"; size = 7; sha256 = "digest" }

abbrev note_copy : Attachment
note_copy = record { kind = "file"; name = "note.txt"; size = 7; local_path = "01.blob" }

staged_note : stage_send_attachments disk (note ∷ []) ≡ ok (note_preview ∷ [], note_copy ∷ [])
unfolding stage_send_attachments stage_each stage_one stage_file copied copy_of written synced
staged_note = refl

stage_send_attachments-bounds_example :
    (length (note ∷ []) ≤ 20)
    × (total_size (note_preview ∷ []) ≤ 536870912)
    × (length (note_preview ∷ []) ≡ length (note ∷ []))
    × (length (note_copy ∷ []) ≡ length (note ∷ []))
stage_send_attachments-bounds_example =
    stage_send_attachments-bounds disk (note ∷ []) (note_copy ∷ []) (note_preview ∷ []) staged_note

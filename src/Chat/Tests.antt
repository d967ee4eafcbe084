-- ===== src/Chat/Tests.antt =====
-- A run of one exchange: prepared, completed, and what comes too late.
use eiraos_chat_backend.Prelude.{◌≡◌, refl, none, some, true, false, [], ◌∷◌}
use eiraos_chat_backend.Prelude.Result.{ok}
use eiraos_chat_backend.Prelude.Rows.{select, select_all, update, update_all}
use eiraos_chat_backend.Prelude.Text.{one_of}
use eiraos_chat_backend.Idempotency.{IdempotencyRecord}
use eiraos_chat_backend.Idempotency.Record
use eiraos_chat_backend.Chat.Failure.{provider_timeout}
use eiraos_chat_backend.Chat.Database.{Status, Database, has_execution_id}
use eiraos_chat_backend.Chat.Session.{
  Faults, done, end_transaction, locked_execution, assistant, bind_governance_decision,
}
use eiraos_chat_backend.Chat.Prepare.{prepare_new, preparation, prepare_exchange}
use eiraos_chat_backend.Chat.Exchange.{Exchange, PersistedChatExecution, snapshot}
use eiraos_chat_backend.Chat.Accounting.{ExecutionCost, record_accounting, is_accounting_of}
use eiraos_chat_backend.Chat.Recover.{mark_streaming}
use eiraos_chat_backend.Chat.Finalize.{
  Ended, ended, is_open_for, finished, assert_owned, close, finalization, finalize,
}
use eiraos_chat_backend.Chat.Once.{IsFinal, finalize-IsFinal, Refused}
use eiraos_chat_backend.Chat.Later.{Later, here, finalized, ended_once}
use eiraos_chat_backend.Chat.Prepared.{Prepared, prepare_exchange-Prepared}

abbrev healthy : Faults
healthy point = false

abbrev held : IdempotencyRecord
held = record {
  id = 5;
  organization_id = 7;
  user_id = 12;
  key = "k";
  request_hash = "h";
  status = Record.Status.processing;
  response_status = none;
  response_reference = none;
  created_at = 10;
  expires_at = some 9000;
  lease_until = some 500;
  lease_token = some "token";
}

abbrev db0 : Database
db0 = record {
  executions = [];
  messages = [];
  usages = [];
  decisions = [];
  idempotency = held ∷ [];
  next_execution = 1;
  next_message = 1;
  next_usage = 1;
}

abbrev exchange : Exchange
exchange = record {
  execution_id = "run";
  request_id = "req";
  conversation_id = 3;
  organization_id = 7;
  user_id = 12;
  bot_id = 4;
  bot_organization_id = 7;
  provider = "openai";
  model = "gpt-4o";
  prompt = "hi";
  idempotency_record_id = some 5;
  estimated_tokens = 1025;
  estimated_cost = 20;
  verification = false;
  recover = false;
  lease_token = some "token";
  max_attempts = 3;
  governance_decision_id = none;
}

abbrev persisted : PersistedChatExecution
persisted = record {
  execution_id = "run";
  user_message_id = 1;
  assistant_message_id = 2;
  status = Status.prepared;
}

unfoldable db1 : Database
unfolding prepare_exchange
db1 = (prepare_exchange healthy done 100 exchange db0).1

prepared_first : prepare_exchange healthy done 100 exchange db0 ≡ (ok persisted, db1)
unfolding db1 prepare_exchange preparation prepare_new snapshot bind_governance_decision
    end_transaction select
prepared_first = refl

prepare_exchange-Prepared_example : Prepared 100 exchange db0 db1
prepare_exchange-Prepared_example =
    prepare_exchange-Prepared healthy done 100 exchange db0 prepared_first

abbrev cost : ExecutionCost
cost = record {
  provider = "openai";
  model = "gpt-4o";
  operation = "primary";
  input_tokens = 1;
  output_tokens = 9;
  total_tokens = 10;
  cost = 2;
  usage_source = "estimated";
  pricing_revision = "r1";
}

abbrev answer : Ended
answer = record {
  execution_id = "run";
  terminal_status = Status.completed;
  content = "hello";
  response_status = 200;
  response_reference = "completed";
  lease_token = some "token";
  failure_code = none;
  accounting = cost ∷ [];
}

unfoldable db2 : Database
unfolding finalize db1
db2 = (finalize healthy done 200 answer db1).1

ended_first : finalize healthy done 200 answer db1 ≡ (ok true, db2)
unfolding db2 db1 prepare_exchange preparation prepare_new snapshot bind_governance_decision
    end_transaction select update update_all select_all finalize finalization close locked_execution
    assistant assert_owned finished ended is_open_for record_accounting is_accounting_of one_of
ended_first = refl

finalize-IsFinal_example : IsFinal 200 answer db1 db2
finalize-IsFinal_example = finalize-IsFinal healthy 200 answer db1 done ended_first

abbrev late : Ended
late = record answer {
  terminal_status = Status.failed;
  failure_code = some provider_timeout;
  content = "";
}

-- the tables after a late failure of the same execution
unfoldable db3 : Database
db3 = (finalize healthy done 300 late db2).1

late_too : Later db2 db3
unfolding db3
late_too = finalized healthy done 300 late here

ended_once_example :
    (select (has_execution_id "run") db3.executions
      ≡ select (has_execution_id "run") db2.executions)
    × Refused db3 (finalize healthy done 400 late db3)
    × Refused db3 (mark_streaming healthy done "run" db3)
ended_once_example =
    ended_once healthy done 200 answer db1 ended_first late_too healthy done 400 late refl refl

-- a token that does not hold the record ends nothing
stolen : (finalize healthy done 200 (record late { lease_token = some "other" }) db1).1 ≡ db1
unfolding db1 prepare_exchange preparation prepare_new snapshot bind_governance_decision
    end_transaction select finalize finalization close locked_execution assert_owned
stolen = refl

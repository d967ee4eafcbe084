-- ===== src/Chat/Accounting.antt =====
-- `_record_accounting`: one usage row for each operation of the attempt.
use eiraos_chat_backend.Prelude.{
  ℕ, suc, String, some, Bool, List, [], ◌∷◌, ◌++◌, ◌&&◌, ◌||◌, not, is_some, opt_eq, str_eq, ◌==◌,
}
use eiraos_chat_backend.Prelude.Text.{one_of}
use eiraos_chat_backend.Prelude.Result.{ok, ◌>>=◌, ◌>>◌}
use eiraos_chat_backend.Prelude.Rows.{select}
use eiraos_chat_backend.Chat.Database.{ChatExecution, ProviderUsageRecord, Database}
use eiraos_chat_backend.Chat.Session.{
  conflict, find_accounting, Faults, Transaction, refuse_if, execute,
}

pub record ExecutionCost : Type 0 where
  pub provider : String
  pub model : String
  pub operation : String
  pub input_tokens : ℕ
  pub output_tokens : ℕ
  pub total_tokens : ℕ
  pub cost : ℕ
  pub usage_source : String
  pub pricing_revision : String

unfoldable pub is_accounting_of : ChatExecution → ExecutionCost → ProviderUsageRecord → Bool
is_accounting_of e entry u =
    opt_eq u.chat_execution_id (some e.id)
    && (u.attempt == e.attempt_count
        && (str_eq u.operation entry.operation && str_eq u.usage_source entry.usage_source))

abbrev pub usage_row : ChatExecution → ExecutionCost → ℕ → ProviderUsageRecord
usage_row e entry id = record {
  id = id;
  request_id = e.request_id;
  execution_id = e.execution_id;
  chat_execution_id = some e.id;
  user_id = e.user_id;
  organization_id = e.organization_id;
  provider = entry.provider;
  model = entry.model;
  operation = entry.operation;
  attempt = e.attempt_count;
  usage_source = entry.usage_source;
  pricing_revision = some entry.pricing_revision;
  input_tokens = entry.input_tokens;
  output_tokens = entry.output_tokens;
  total_tokens = entry.total_tokens;
  estimated_cost = 0;
  actual_cost = some entry.cost;
  verification = str_eq entry.operation "verification";
}

abbrev pub insert_usage : ChatExecution → ExecutionCost → Database → Database
insert_usage e entry db = record db {
  usages = db.usages ++ usage_row e entry db.next_usage ∷ [];
  next_usage = suc db.next_usage;
}

abbrev pub is_misbound : ChatExecution → ExecutionCost → Bool
is_misbound e entry =
    str_eq entry.operation "primary"
    && (not (str_eq entry.provider e.provider) || not (str_eq entry.model e.model))

module _ {A : Type 0} (faults : Faults) (e : ChatExecution) where
  -- the number counts the queries of the loop
  unfoldable pub record_accounting :
      ℕ → List String → List ExecutionCost → Database → Transaction A Database
  unfolding is_accounting_of
  record_accounting n operations [] db = ok db
  record_accounting n operations (entry ∷ entries) db = do
    refuse_if (one_of entry.operation operations) (conflict "duplicate accounting operation")
    refuse_if (is_misbound e entry) (conflict "primary accounting binding is invalid")
    existing ← execute faults (find_accounting n) (select (is_accounting_of e entry) db.usages)
    refuse_if (is_some existing) (conflict "execution accounting was already recorded")
    record_accounting (suc n) (entry.operation ∷ operations) entries (insert_usage e entry db)

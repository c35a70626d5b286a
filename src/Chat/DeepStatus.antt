-- ===== src/Chat/DeepStatus.antt =====
-- `getDeepJob` of apps/api-gateway/src/chat/chat-deep-job.ts and `getDeepStatus` of
-- conversation.controller.ts: whether a deep search goes on, for a browser that comes back.
use ragpolyglot_demo.Base.{false, true, Option, none, some, if◌then◌else◌}
use ragpolyglot_demo.Base.Text.{Text, is_empty}
use ragpolyglot_demo.Shared.Records.{ChatDeepStatus}
use ragpolyglot_demo.Chat.Gateway.World.{DeepJobState, World}

-- A job without a query is not taken for one.
abbrev valid_job : Option DeepJobState → Option DeepJobState
valid_job none = none
valid_job (some job) = if is_empty job.query then none else some job

-- Nothing is read while Redis is not ready.
unfoldable pub get_deep_job : Text → World → Option DeepJobState
get_deep_job conversation_id w = if w.redis_ready then valid_job (w.jobs conversation_id) else none

abbrev status_of : Option DeepJobState → ChatDeepStatus
status_of none = record { running = false; query = none; done = none; total = none }
status_of (some job) = record {
  running = true;
  query = some job.query;
  done = some job.done;
  total = some job.total;
}

unfoldable pub get_deep_status : Text → World → ChatDeepStatus
get_deep_status id w = status_of (get_deep_job id w)

-- ===== src/Dsl/Types.antt =====
-- The data classes of sdk/python/src/helixgrid/dsl.py and the retry policy of
-- sdk/python/src/helixgrid/client.py. A message is kept as its words, with {} for what it prints,
-- beside the texts that it quotes; numbers and the file name, the same in all errors of one run,
-- are left out.
use helix_grid.Prelude.{ℕ, String, List, [], Bool, ◌&&◌, ◌==◌}
use helix_grid.Prelude.Codes.{Codes, Table}

pub record DslError : Type 0 where
  pub message : String
  pub quoted : List Codes
  pub line : ℕ
  pub column : ℕ

abbrev pub plain_error : String → ℕ → ℕ → DslError
plain_error message line column = record {
  message = message;
  quoted = [];
  line = line;
  column = column;
}

pub record Token : Type 0 where
  pub kind : String
  pub value : Codes
  pub line : ℕ
  pub column : ℕ

-- `RetryPolicy` of client.py
pub record Retry : Type 0 where
  pub max_attempts : ℕ
  pub base_delay_ms : ℕ
  pub max_delay_ms : ℕ

abbrev pub default_retry : Retry
default_retry = record { max_attempts = 1; base_delay_ms = 250; max_delay_ms = 30000 }

-- `==` on retry policies
abbrev pub same_retry : Retry → Retry → Bool
same_retry a b =
    a.max_attempts == b.max_attempts
    && a.base_delay_ms == b.base_delay_ms
    && a.max_delay_ms == b.max_delay_ms

pub record TaskNode : Type 0 where
  pub id : Codes
  pub line : ℕ
  pub command : List Codes
  pub depends_on : List Codes
  pub env : Table Codes
  pub labels : Table Codes
  pub timeout_seconds : ℕ
  pub retry : Retry

-- `TaskNode(id=…, line=…)`: the other fields have their defaults.
abbrev pub empty_task : Codes → ℕ → TaskNode
empty_task id line = record {
  id = id;
  line = line;
  command = [];
  depends_on = [];
  env = [];
  labels = [];
  timeout_seconds = 0;
  retry = default_retry;
}

pub record WorkflowNode : Type 0 where
  pub name : Codes
  pub line : ℕ
  pub metadata : Table Codes
  pub tasks : List TaskNode

pub record Diagnostic : Type 0 where
  pub severity : String
  pub code : String
  pub message : String
  pub quoted : List Codes
  pub line : ℕ

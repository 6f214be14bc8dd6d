-- ===== src/Catalog.antt =====
-- internal/modelcatalog/model.go: the credential-independent model descriptors. A backend is the
-- text that goes over the wire, as in the source.
pub mod Normalize
pub mod Effort
pub mod Aggregate
mod Tests
use grokcli2api_go.Prelude.{ℕ, String, Bool, false, true, Option, none, List, []}
use grokcli2api_go.Prelude.Int.{ℤ, pos}

abbrev pub backend_chat_completions : String
backend_chat_completions = "chat_completions"

abbrev pub backend_responses : String
backend_responses = "responses"

abbrev pub backend_messages : String
backend_messages = "messages"

-- Absent pointers are `none`; a duration counts nanoseconds.
pub record ModelDescriptor : Type 0 where
  pub id : String
  pub wire_model : String
  pub backend : String
  pub context_window : ℕ
  pub max_completion_tokens : ℕ
  pub supports_reasoning_effort : Bool
  pub reasoning_efforts : List String
  pub supports_backend_search : Bool
  pub stream_tool_calls : Bool
  pub hidden : Bool
  pub supported_in_api : Bool
  pub inference_idle_timeout : ℤ
  pub inference_idle_timeout_secs : ℕ
  pub max_retries : Option ℕ
  pub auto_compact_threshold : Option ℕ
  pub compaction_at_tokens : Option ℕ
  pub compactions_remaining : Option ℕ
  pub created : ℤ

-- The zero value, ModelDescriptor{}.
abbrev pub no_descriptor : ModelDescriptor
no_descriptor = record {
  id = "";
  wire_model = "";
  backend = "";
  context_window = 0;
  max_completion_tokens = 0;
  supports_reasoning_effort = false;
  reasoning_efforts = [];
  supports_backend_search = false;
  stream_tool_calls = false;
  hidden = false;
  supported_in_api = false;
  inference_idle_timeout = pos 0;
  inference_idle_timeout_secs = 0;
  max_retries = none;
  auto_compact_threshold = none;
  compaction_at_tokens = none;
  compactions_remaining = none;
  created = pos 0;
}

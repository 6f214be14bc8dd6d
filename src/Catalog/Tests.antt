-- ===== src/Catalog/Tests.antt =====
-- Runs of the catalog on two descriptors of one model.
use Prim.Native.Char.{Char}
use grokcli2api_go.Prelude.{◌≡◌, ◌≢◌, ◌⊎◌, true, not, [], ◌∷◌, ◌==◌, All, has, is_nil, map}
use grokcli2api_go.Prelude.Text.{to_lower, trim_space}
use grokcli2api_go.Catalog.{ModelDescriptor, no_descriptor, backend_responses, backend_messages}
use grokcli2api_go.Catalog.Normalize.{normalize, is_canonical_reasoning_effort}
use grokcli2api_go.Catalog.Effort.{
  normalize_reasoning_effort, Accepts, normalize_reasoning_effort_cases,
}
use grokcli2api_go.Catalog.Aggregate.{aggregate, aggregate_group, supported_effort_set}
use grokcli2api_go.Catalog.Aggregate.Flags.{aggregate_group_shared, every, some_of}
use grokcli2api_go.Catalog.Aggregate.Limits.{aggregate_group_limits, IsLeastPositive}
use grokcli2api_go.Catalog.Aggregate.Groups.{aggregate_exact, candidates}

-- Letters outside ASCII stay as they are.
abbrev same_letter : Char → Char
same_letter c = c

abbrev slow : ModelDescriptor
slow = record no_descriptor {
  id = "grok-4";
  backend = backend_responses;
  context_window = 256000;
  supports_reasoning_effort = true;
  reasoning_efforts = "high" ∷ "low" ∷ [];
}

abbrev fast : ModelDescriptor
fast = record slow {
  backend = backend_messages;
  context_window = 131072;
  reasoning_efforts = "high" ∷ [];
}

effort_example :
    (normalize_reasoning_effort same_letter " HIGH" slow ≡ "low")
    ⊎ ((normalize_reasoning_effort same_letter " HIGH" slow
          ≡ to_lower same_letter (trim_space " HIGH"))
        × (is_canonical_reasoning_effort (normalize_reasoning_effort same_letter " HIGH" slow)
            ≡ true)
        × (normalize_reasoning_effort same_letter " HIGH" slow ≢ "none")
        × Accepts
            (normalize same_letter slow)
            (normalize_reasoning_effort same_letter " HIGH" slow))
effort_example = normalize_reasoning_effort_cases same_letter " HIGH" slow

shared_example :
    ((aggregate_group "grok-4" (slow ∷ fast ∷ [])).supports_backend_search
      ≡ every (λ c. c.supports_backend_search) (slow ∷ fast ∷ []))
    × ((aggregate_group "grok-4" (slow ∷ fast ∷ [])).stream_tool_calls
        ≡ every (λ c. c.stream_tool_calls) (slow ∷ fast ∷ []))
    × ((aggregate_group "grok-4" (slow ∷ fast ∷ [])).supports_reasoning_effort
        ≡ every (λ c. c.supports_reasoning_effort) (slow ∷ fast ∷ []))
    × (has "low" (aggregate_group "grok-4" (slow ∷ fast ∷ [])).reasoning_efforts
        ≡ every (λ c. has "low" (supported_effort_set c)) (slow ∷ fast ∷ []))
    × (has "messages" (aggregate_group "grok-4" (slow ∷ fast ∷ [])).api_backends
        ≡ some_of (λ c. c.backend == "messages") (slow ∷ fast ∷ []))
shared_example = aggregate_group_shared "grok-4" slow (fast ∷ []) "low" "messages"

limits_example :
    IsLeastPositive
      (aggregate_group "grok-4" (slow ∷ fast ∷ [])).context_window
      (256000 ∷ 131072 ∷ [])
    × IsLeastPositive
        (aggregate_group "grok-4" (slow ∷ fast ∷ [])).max_completion_tokens
        (0 ∷ 0 ∷ [])
limits_example = aggregate_group_limits "grok-4" (slow ∷ fast ∷ [])

aggregate_example :
    All
      (λ item. item ≡ aggregate_group item.id (candidates same_letter item.id (slow ∷ fast ∷ [])))
      (aggregate same_letter (slow ∷ fast ∷ []))
    × (has "grok-4" (map (λ item. item.id) (aggregate same_letter (slow ∷ fast ∷ [])))
        ≡ not (is_nil (candidates same_letter "grok-4" (slow ∷ fast ∷ []))))
aggregate_example = aggregate_exact same_letter (slow ∷ fast ∷ []) "grok-4"

-- ===== src/Catalog/Aggregate.antt =====
-- Aggregate: the public view of the descriptors of all accounts, grouped by model.
pub mod Flags
pub mod Limits
pub mod Groups
use Prim.Native.Char.{Char}
use grokcli2api_go.Prelude.{
  ℕ, suc, ◌+◌, String, Bool, true, false, not, ◌&&◌, ◌||◌, Option, none, some, List, [], ◌∷◌, ◌++◌,
  map, ◌==◌, if◌then◌else◌, ltb, eqb, has, is_nil, select,
}
use grokcli2api_go.Prelude.Int.{ℤ, pos, is_positive, is_zero, int_ltb}
use grokcli2api_go.Prelude.Map.{Map, lookup, insert}
use grokcli2api_go.Prelude.Sort.{sort_by}
use grokcli2api_go.Catalog.{ModelDescriptor}
use grokcli2api_go.Catalog.Normalize.{normalize, canonical_efforts}

pub record AggregatedModel : Type 0 where
  pub id : String
  pub created : ℤ
  pub api_backends : List String
  pub context_window : ℕ
  pub max_completion_tokens : ℕ
  pub reasoning_efforts : List String
  pub supports_backend_search : Bool
  pub stream_tool_calls : Bool
  pub supports_reasoning_effort : Bool

-- A Go set of texts: the keys of a map with empty values.
unfoldable pub add_to_set : String → List String → List String
unfolding has
add_to_set k s = if has k s then s else k ∷ s

unfoldable pub set_of : List String → List String
unfolding add_to_set
set_of [] = []
set_of (x ∷ xs) = add_to_set x (set_of xs)

unfoldable pub supported_effort_set : ModelDescriptor → List String
unfolding set_of
supported_effort_set d =
    if not d.supports_reasoning_effort
    then []
    else if is_nil d.reasoning_efforts
    then canonical_efforts
    else set_of d.reasoning_efforts

-- minimumPositive64 and minimumPositive32
unfoldable pub minimum_positive : ℕ → ℕ → ℕ
minimum_positive current candidate =
    if eqb current 0 || (ltb 0 candidate && ltb candidate current) then candidate else current

unfoldable pub earliest_created : ℤ → ℤ → ℤ
earliest_created current candidate =
    if is_zero current || (is_positive candidate && int_ltb candidate current)
    then candidate
    else current

-- The variables of the loop over the candidates of one model; `efforts` is `none` before the first.
pub record Totals : Type 0 where
  pub created : ℤ
  pub context_window : ℕ
  pub max_completion_tokens : ℕ
  pub backend_search : Bool
  pub tool_calls : Bool
  pub reasoning : Bool
  pub backends : List String
  pub efforts : Option (List String)

abbrev pub no_totals : Totals
no_totals = record {
  created = pos 0;
  context_window = 0;
  max_completion_tokens = 0;
  backend_search = true;
  tool_calls = true;
  reasoning = true;
  backends = [];
  efforts = none;
}

abbrev pub common_efforts : Option (List String) → List String → List String
common_efforts none candidate = candidate
common_efforts (some efforts) candidate = select (λ e. has e candidate) efforts

unfoldable pub absorb : Totals → ModelDescriptor → Totals
unfolding add_to_set minimum_positive earliest_created supported_effort_set
absorb t d = record {
  created = earliest_created t.created d.created;
  context_window = minimum_positive t.context_window d.context_window;
  max_completion_tokens = minimum_positive t.max_completion_tokens d.max_completion_tokens;
  backend_search = t.backend_search && d.supports_backend_search;
  tool_calls = t.tool_calls && d.stream_tool_calls;
  reasoning = t.reasoning && d.supports_reasoning_effort;
  backends = add_to_set d.backend t.backends;
  efforts = some (common_efforts t.efforts (supported_effort_set d));
}

unfoldable pub absorb_all : Totals → List ModelDescriptor → Totals
unfolding absorb
absorb_all t [] = t
absorb_all t (d ∷ ds) = absorb_all (absorb t d) ds

abbrev pub or_nil {ℓ} : {A : Type ℓ} → Option (List A) → List A
or_nil none = []
or_nil (some xs) = xs

-- One turn of the loop over the groups.
unfoldable pub aggregate_group : String → List ModelDescriptor → AggregatedModel
unfolding absorb_all
aggregate_group id candidates =
    let t = absorb_all no_totals candidates in
    record {
      id = id;
      created = t.created;
      api_backends = sort_by (λ s. s) t.backends;
      context_window = t.context_window;
      max_completion_tokens = t.max_completion_tokens;
      reasoning_efforts = sort_by (λ s. s) (or_nil t.efforts);
      supports_backend_search = t.backend_search;
      stream_tool_calls = t.tool_calls;
      supports_reasoning_effort = t.reasoning;
    }

-- groups[descriptor.ID] = append(groups[descriptor.ID], descriptor)
unfoldable pub add_to_group :
    ModelDescriptor → Map (List ModelDescriptor) → Map (List ModelDescriptor)
add_to_group d groups =
    if d.id == "" || d.hidden
    then groups
    else insert d.id (or_nil (lookup d.id groups) ++ d ∷ []) groups

unfoldable pub group_all :
    (Char → Char) → Map (List ModelDescriptor) → List ModelDescriptor → Map (List ModelDescriptor)
unfolding add_to_group
group_all other groups [] = groups
group_all other groups (d ∷ ds) = group_all other (add_to_group (normalize other d) groups) ds

unfoldable pub aggregate : (Char → Char) → List ModelDescriptor → List AggregatedModel
unfolding group_all aggregate_group
aggregate other descriptors =
    sort_by (λ item. item.id)
      (map (λ group. aggregate_group group.0 group.1) (group_all other [] descriptors))

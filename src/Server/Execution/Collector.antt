-- ===== src/Server/Execution/Collector.antt =====
-- streamStateCollector of internal/server/inference_execution.go: the state tokens that a stream carried.
use Prim.Native.Char.{Char}
use grokcli2api_go.Prelude.{String, Bool, List, [], ◌∷◌, ◌==◌, if◌then◌else◌, with_option}
use grokcli2api_go.Prelude.Int.{ℤ, pos, int_ltb}
use grokcli2api_go.Prelude.Table.{Table, find, drop, put, indices}
use grokcli2api_go.Prelude.Text.{trim_space, to_lower, join_text}
use grokcli2api_go.Prelude.Json.{Fields, get_field, text_of, fields_of, as_number}
use grokcli2api_go.Anthropic.Stream.Handle.{Upstream}
use grokcli2api_go.Server.Execution.Commit.{add_token, response_state_tokens}

-- streamStateCollector; `seen` has the members of `tokens`.
pub record Collector : Type 0 where
  pub signatures : Table String
  pub tokens : List String

-- newStreamStateCollector
abbrev pub new_collector : Collector
new_collector = record { signatures = []; tokens = [] }

-- add
unfoldable pub collect : String → Collector → Collector
collect token c = record c { tokens = add_token (trim_space token) c.tokens }

abbrev pub collect_all : List String → Collector → Collector
collect_all [] c = c
collect_all (token ∷ tokens) c = collect_all tokens (collect token c)

-- finishSignature
unfoldable pub finish_signature : ℤ → Collector → Collector
finish_signature index c =
    let left : Collector = record c { signatures = drop index c.signatures } in
    with_option (find index c.signatures) left (λ text. collect text left)

-- The text written so far, with more text.
unfoldable pub write_signature : ℤ → String → Collector → Collector
write_signature index text c =
    let before = with_option (find index c.signatures) "" (λ s. s) in
    record c { signatures = put index (join_text before text) c.signatures }

-- intAt(payload, "index")
abbrev pub index_of : Fields → ℤ
index_of payload = with_option (as_number (get_field "index" payload)) (pos 0) (λ n. n)

-- The order of sort.Ints.
unfoldable pub insert_index : ℤ → List ℤ → List ℤ
insert_index i [] = i ∷ []
insert_index i (j ∷ js) =
    let rest = insert_index i js in if int_ltb j i then j ∷ rest else i ∷ j ∷ js

unfoldable pub sort_indices : List ℤ → List ℤ
sort_indices [] = []
sort_indices (i ∷ is) = insert_index i (sort_indices is)

unfoldable pub finish_all : List ℤ → Collector → Collector
finish_all [] c = c
finish_all (i ∷ is) c = finish_all is (finish_signature i c)

-- Tokens
unfoldable pub tokens_of : Collector → List String
tokens_of c = (finish_all (sort_indices (indices c.signatures)) c).tokens

-- `other` is lower case outside ASCII, `equal_fold` is strings.EqualFold.
module _ (other : Char → Char) (equal_fold : String → String → Bool) where
  -- The switch of Observe.
  unfoldable pub observe_kind : String → ℤ → Fields → Collector → Collector
  observe_kind kind index payload c =
      let delta = fields_of (get_field "delta" payload) in
      if kind == "content_block_delta"
      then (if equal_fold (text_of (get_field "type" delta)) "signature_delta"
          then write_signature index (text_of (get_field "signature" delta)) c
          else c)
      else if kind == "content_block_stop"
      then finish_signature index c
      else c

  abbrev pub kind_in : String → Fields → String
  kind_in name payload =
      let kind = to_lower other (trim_space name) in
      if kind == "" then to_lower other (trim_space (text_of (get_field "type" payload))) else kind

  -- Observe
  unfoldable pub observe : Upstream → Collector → Collector
  observe e c =
      if e.is_blank
      then c
      else with_option e.decoded c (λ payload.
        observe_kind (kind_in e.name payload) (index_of payload) payload
          (collect_all (response_state_tokens other payload) c))

  unfoldable pub observe_all : List Upstream → Collector → Collector
  observe_all [] c = c
  observe_all (e ∷ es) c = observe_all es (observe e c)

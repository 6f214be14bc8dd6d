-- ===== src/Anthropic/Values.antt =====
-- What the conversions of internal/anthropic/converter.go and stream.go read from decoded JSON: ids,
-- web search calls, citations, numbers and the key of a stream event.
use grokcli2api_go.Prelude.{
  String, Bool, false, not, ◌&&◌, ◌||◌, Option, none, some, List, [], ◌∷◌, ◌++◌, ◌==◌,
  if◌then◌else◌, has,
}
use grokcli2api_go.Prelude.Int.{ℤ, pos, is_zero}
use grokcli2api_go.Prelude.Map.{Map, lookup}
use grokcli2api_go.Prelude.Text.{join_text}
use grokcli2api_go.Prelude.Json.{
  Json, string, array, object, Fields, no_fields, one_field, find_field, get_field, text_of,
  fields_of, array_of, as_number, items_of,
}
use grokcli2api_go.Anthropic.Stops.{Text, begins}

abbrev pub to_text : String → Text
to_text String.[] = []
to_text (String.◌∷◌ c s) = c ∷ to_text s

abbrev pub of_text : Text → String
of_text [] = ""
of_text (c ∷ t) = String.◌∷◌ c (of_text t)

-- stringOr
abbrev pub string_or : Json → String → String
string_or value fallback = let s = text_of value in if s == "" then fallback else s

-- rawItemID
unfoldable pub raw_item_id : Fields → String
unfolding get_field
raw_item_id item = string_or (get_field "call_id" item) (string_or (get_field "id" item) "")

-- anthropicID; `fresh` stands for the id that grok.NewID would draw.
unfoldable pub anthropic_id : String → String → String → String
unfolding begins
anthropic_id fresh prefix raw =
    if begins (to_text prefix) (to_text raw)
    then raw
    else join_text prefix (if raw == "" then fresh else raw)

-- firstNumber
unfoldable pub first_number : List String → Fields → ℤ
unfolding get_field
first_number [] values = pos 0
first_number (key ∷ keys) values =
    let rest = first_number keys values in
    elim (as_number (get_field key values)) [ none ↦ rest | some n ↦ n ]

-- What the loop of webSearchInput copies.
abbrev copy_fields : List String → Fields → Fields
copy_fields [] action = no_fields
copy_fields (key ∷ keys) action =
    let rest = copy_fields keys action in
    elim (find_field key action) [ none ↦ rest | some value ↦ one_field key value rest ]

-- webSearchInput
unfoldable pub web_search_input : Fields → Fields
unfolding get_field find_field
web_search_input item =
    copy_fields ("query" ∷ "type" ∷ "url" ∷ []) (fields_of (get_field "action" item))

-- The urls seen and the results made.
abbrev Results : Type 0
Results = List String × List Json

abbrev title_of : Map String → String → String
title_of titles url = elim (lookup url titles) [
  | none ↦ url
  | some title ↦ if title == "" then url else title
]

-- appendResult of webSearchResults
unfoldable pub append_result : Map String → Results → String → Results
unfolding lookup has
append_result titles (seen, results) url = if url == "" || has url seen then (seen, results) else (
  url ∷ seen,
  results
      ++ object (
          one_field "type" (string "web_search_result") (
            one_field "url" (string url)
              (one_field "title" (string (title_of titles url)) no_fields)))
        ∷ [],
)

abbrev append_sources : Map String → Results → List Json → Results
append_sources titles r [] = r
append_sources titles r (source ∷ sources) =
    append_sources titles (append_result titles r (text_of (get_field "url" (fields_of source))))
      sources

abbrev append_call : Map String → Results → Fields → Results
append_call titles r action =
    append_sources titles (append_result titles r (text_of (get_field "url" action)))
      (array_of (get_field "sources" action))

-- The loop of webSearchResults over the output.
unfoldable pub search_results : Map String → String → Results → List Json → Results
unfolding append_result get_field raw_item_id
search_results titles raw_id r [] = r
search_results titles raw_id r (raw ∷ output) =
    let item = fields_of raw in
    let here = append_call titles r (fields_of (get_field "action" item)) in
    search_results titles raw_id
      (if text_of (get_field "type" item) == "web_search_call" && raw_item_id item == raw_id
        then here
        else r)
      output

-- webSearchResults
unfoldable pub web_search_results : List Json → String → Map String → Json
unfolding search_results
web_search_results output raw_id titles =
    array (items_of (search_results titles raw_id ([], []) output).1)

abbrev cites_nothing : Option ℤ → Option ℤ → Bool
cites_nothing (some (pos start)) (some (pos end)) = is_zero (pos start) && is_zero (pos end)
cites_nothing start end = false

-- anthropicCitation(annotation, ""): with an empty text only the empty range is in bounds.
unfoldable pub stream_citation : Option Fields → Option Fields
unfolding get_field
stream_citation none = none
stream_citation (some annotation) =
    if not (text_of (get_field "type" annotation) == "url_citation")
      && text_of (get_field "url" annotation) == ""
    then some annotation
    else some (
        one_field "type" (string "web_search_result_location") (
          one_field "url" (get_field "url" annotation) (
            one_field "title" (get_field "title" annotation) (
              if cites_nothing (as_number (get_field "start_index" annotation))
                (as_number (get_field "end_index" annotation))
              then one_field "cited_text" (string "") no_fields
              else no_fields))))

abbrev or_else : String → String → String
or_else s fallback = if s == "" then fallback else s

-- eventKey; `format_number` is fmt.Sprintf("%g", ...).
unfoldable pub event_key : (ℤ → String) → Fields → Fields → String
unfolding get_field
event_key format_number payload nested =
    let found = string_or (get_field "item_id" payload) "" in
    let inner = string_or (get_field "id" nested) (string_or (get_field "call_id" nested) "") in
    let key = or_else (or_else found inner) "item" in
    elim (as_number (get_field "content_index" payload)) [
      | none ↦ key
      | some index ↦ join_text key (join_text ":" (format_number index))
    ]

-- ===== src/Anthropic/Client/Accepted.antt =====
-- Handle of internal/anthropic/stream.go against the client: the refinement.
use grokcli2api_go.Prelude.{
  String, ◌≡◌, refl, sym, subst, Bool, true, false, not, ◌&&◌, ◌||◌, Option, none, some, arith,
  ◌==◌, if◌then◌else◌, if_both, if_else, option_both, with_option, Bool-cases, inl, inr,
}
use mathlib.Core.Bool.{true≢false}
use mathlib.Core.Option.{some-injective}
use grokcli2api_go.Prelude.Int.{ℤ}
use grokcli2api_go.Prelude.Json.{Fields, get_field, text_of, fields_of}
use grokcli2api_go.Anthropic.Stream.{Translator, Fresh, Moved, stay}
use grokcli2api_go.Anthropic.Stream.Kinds.{
  Kind, response_begun, item_added, part_added, text_delta_kind, thinking_delta_kind,
  arguments_delta_kind, annotation_added, part_done, arguments_done, item_done, response_over,
  error_kind, other_kind, kind_of,
}
use grokcli2api_go.Anthropic.Stream.Handle.{Upstream, is_over, name_of, handle_kind, handle}
use grokcli2api_go.Anthropic.Client.{run, view}
use grokcli2api_go.Anthropic.Client.Steps.{
  Keeps, and_then-Keeps, stay-Keeps, open_block-Keeps, send_delta-Keeps,
}
use grokcli2api_go.Anthropic.Client.Cases.{
  add_item-Keeps, add_text-Keeps, add_arguments-Keeps, end_part-Keeps, end_arguments-Keeps,
  end_item-Keeps,
}
use grokcli2api_go.Anthropic.Client.Ending.{Done, finish-Ends}
use grokcli2api_go.Anthropic.Client.Start.{
  Ready, After, Accepts, Quiet, begun-Accepts, ensure_start-Accepts, stay-Accepts, end_part-Quiet,
  end_arguments-Quiet, end_item-Quiet, send_delta-Quiet, known-Accepts, begun-Ready, and_then_assoc,
  error-Accepts, free_key,
}

-- Whether an event is the end of a web search, whose result is a block of its own.
abbrev pub is_search_end : Kind → Fields → Bool
is_search_end item_done payload =
    text_of (get_field "type" (fields_of (get_field "item" payload))) == "web_search_call"
is_search_end kind payload = false

handle_kind-Accepts :
    (format_number : ℤ → String) (fresh : Fresh) (payload : Fields) (kind : Kind) (t : Translator)
    → Ready t
    → (t.started || not (is_search_end kind payload)) ≡ true
    → Accepts (After kind) t (handle_kind format_number fresh payload kind t)
unfolding handle_kind
handle_kind-Accepts format_number fresh payload response_begun t r s =
    ensure_start-Accepts fresh _ t r
handle_kind-Accepts format_number fresh payload item_added t r s =
    begun-Ready fresh none t _ r (add_item-Keeps fresh _ _ _)
handle_kind-Accepts format_number fresh payload part_added t r s =
    begun-Ready fresh none t _ r
      (λ u l. if_both (Keeps u) _ _ _ (open_block-Keeps _ _ _ u l) (stay-Keeps u l))
handle_kind-Accepts format_number fresh payload text_delta_kind t r s =
    subst (Accepts Ready t) (sym (and_then_assoc _ _ _)) (
      begun-Ready fresh none t _ r
        (λ u l. and_then-Keeps u _ _ (open_block-Keeps _ _ _ u l) (add_text-Keeps _ _)))
handle_kind-Accepts format_number fresh payload thinking_delta_kind t r s =
    if_both (Accepts Ready t) t.thinking_enabled _ _
      (subst (Accepts Ready t) (sym (and_then_assoc _ _ _)) (
        begun-Ready fresh none t _ r
          (λ u l. and_then-Keeps u _ _ (open_block-Keeps _ _ _ u l) (send_delta-Keeps _ _))))
      (stay-Accepts t r)
handle_kind-Accepts format_number fresh payload arguments_delta_kind t r s =
    begun-Ready fresh none t _ r (add_arguments-Keeps fresh _ payload)
handle_kind-Accepts format_number fresh payload annotation_added t r s =
    known-Accepts t _ r
      (λ l. option_both (Keeps t) _ _ _ (stay-Keeps t l) (λ c. send_delta-Keeps _ _ t l))
      (λ free i. option_both (Quiet t) _ _ _ refl (λ c. send_delta-Quiet _ _ t (free_key _ t free)))
handle_kind-Accepts format_number fresh payload part_done t r s =
    known-Accepts t _ r (end_part-Keeps _ t) (λ free i. end_part-Quiet _ t (free_key _ t free))
handle_kind-Accepts format_number fresh payload arguments_done t r s =
    known-Accepts t _ r (end_arguments-Keeps _ payload t)
      (λ free i. end_arguments-Quiet _ payload t (free_key _ t free))
handle_kind-Accepts format_number fresh payload item_done t r s =
    known-Accepts t _ r (end_item-Keeps fresh _ _ t)
      (λ free i. end_item-Quiet fresh _ _ t (free_key _ t free) (ground (arith, s, i)))
handle_kind-Accepts format_number fresh payload response_over t r s =
    begun-Accepts Done fresh _ t _ r (finish-Ends _)
handle_kind-Accepts format_number fresh payload error_kind t r s = error-Accepts t _ r
handle_kind-Accepts format_number fresh payload other_kind t r s = stay-Accepts t r

-- The case that an event falls into.
abbrev pub event_kind : Upstream → Kind
event_kind e =
    if e.is_blank
    then other_kind
    else with_option e.decoded other_kind (λ payload. kind_of (name_of e payload))

-- Whether an event reports the end of a web search.
abbrev pub reports_search : Upstream → Bool
reports_search e =
    with_option e.decoded false (λ payload. is_search_end (kind_of (name_of e payload)) payload)

abbrev is_response_over : Kind → Bool
is_response_over response_over = true
is_response_over kind = false

NotOver : Kind → Type 0
NotOver k = is_response_over k ≡ false

calm : (k : Kind) → is_response_over k ≡ false → NotOver k
unfolding NotOver
calm k h = h

kind_of-NotOver : (name : String) → is_over name ≡ false → NotOver (kind_of name)
unfolding kind_of
kind_of-NotOver name h = if_both NotOver _ _ _ (calm response_begun refl) (
    if_both NotOver _ _ _ (calm item_added refl) (
      if_both NotOver _ _ _ (calm part_added refl) (
        if_both NotOver _ _ _ (calm text_delta_kind refl) (
          if_both NotOver _ _ _ (calm thinking_delta_kind refl) (
            if_both NotOver _ _ _ (calm arguments_delta_kind refl) (
              if_both NotOver _ _ _ (calm annotation_added refl) (
                if_both NotOver _ _ _ (calm part_done refl) (
                  if_both NotOver _ _ _ (calm arguments_done refl) (
                    if_both NotOver _ _ _ (calm item_done refl) (
                      if_else NotOver (is_over name) _ _ h (
                        if_both NotOver _ _ _ (calm error_kind refl)
                          (calm other_kind refl))))))))))))

-- After an event that does not end the response, the message is not over, and that is all that is said.
After-Ready :
    (k : Kind) (t : Translator) → NotOver k → (Ready t → After k t) × (After k t → Ready t)
unfolding NotOver
After-Ready response_begun t h = (λ r. r, λ r. r)
After-Ready item_added t h = (λ r. r, λ r. r)
After-Ready part_added t h = (λ r. r, λ r. r)
After-Ready text_delta_kind t h = (λ r. r, λ r. r)
After-Ready thinking_delta_kind t h = (λ r. r, λ r. r)
After-Ready arguments_delta_kind t h = (λ r. r, λ r. r)
After-Ready annotation_added t h = (λ r. r, λ r. r)
After-Ready part_done t h = (λ r. r, λ r. r)
After-Ready arguments_done t h = (λ r. r, λ r. r)
After-Ready item_done t h = (λ r. r, λ r. r)
After-Ready response_over t h = absurd (true≢false h)
After-Ready error_kind t h = (λ r. r, λ r. r)
After-Ready other_kind t h = (λ r. r, λ r. r)

pub After-going :
    (name : String) (t : Translator) → is_over name ≡ false → After (kind_of name) t → Ready t
After-going name t h = (After-Ready (kind_of name) t (kind_of-NotOver name h)).1

-- What Handle gives for an event whose data decodes.
handle_decoded :
    (format_number : ℤ → String) (fresh : Fresh) (e : Upstream) (payload : Fields) (t : Translator)
    → Ready t
    → (t.started || not (is_search_end (kind_of (name_of e payload)) payload)) ≡ true
    → Accepts (After (kind_of (name_of e payload))) t (
        if not (t.stop_sequence == "") && not (is_over (name_of e payload))
        then stay t
        else handle_kind format_number fresh payload (kind_of (name_of e payload)) t)
unfolding Accepts
handle_decoded format_number fresh e payload t r s =
    let name = name_of e payload in
    elim (Bool-cases (is_over name)) [
      | inl ending ↦
          if_else (Accepts (After (kind_of name)) t)
            (not (t.stop_sequence == "") && not (is_over name)) _ _ (ground (arith, ending))
            (handle_kind-Accepts format_number fresh payload (kind_of name) t r s)
      | inr going ↦
          let quiet = stay-Accepts t r in
          if_both (Accepts (After (kind_of name)) t) _ _ _
            (
              quiet.0,
              (After-Ready (kind_of name) (stay t).0 (kind_of-NotOver name going)).0 quiet.1,
            )
            (handle_kind-Accepts format_number fresh payload (kind_of name) t r s)
    ]

-- handle_refines, on the fields of the event.
refines_parts :
    (format_number : ℤ → String) (fresh : Fresh) (name : String) (is_blank : Bool)
    (decoded : Option Fields) (t : Translator) (m : Moved)
    → Ready t
    → (t.started
        || not (reports_search (record { name = name; is_blank = is_blank; decoded = decoded })))
      ≡ true
    → handle format_number fresh (record { name = name; is_blank = is_blank; decoded = decoded }) t
      ≡ some m
    → Accepts
        (After (event_kind (record { name = name; is_blank = is_blank; decoded = decoded })))
        t
        m
unfolding handle
refines_parts format_number fresh name true decoded t m r s h =
    subst (Accepts Ready t) (some-injective (stay t) m h) (stay-Accepts t r)
refines_parts format_number fresh name false none t m r s h = cc
refines_parts format_number fresh name false (some payload) t m r s h =
    let e : Upstream = record { name = name; is_blank = false; decoded = some payload } in
    subst (Accepts (After (kind_of (name_of e payload))) t) (some-injective _ m h)
      (handle_decoded format_number fresh e payload t r s)

-- For a message that is not over, and an event that is not the end of a web search or comes after the
-- start: where Handle gives events, the client accepts them all and then knows the translator's new
-- state, and the message is over exactly after an event that ends the response.
pub handle_refines :
    (format_number : ℤ → String) (fresh : Fresh) (e : Upstream) (t : Translator) (m : Moved)
    → Ready t
    → (t.started || not (reports_search e)) ≡ true
    → handle format_number fresh e t ≡ some m
    → (run (view t) m.1 ≡ some (view m.0)) × After (event_kind e) m.0
unfolding Accepts
handle_refines format_number fresh e t m r s h =
    refines_parts format_number fresh e.name e.is_blank e.decoded t m r s h

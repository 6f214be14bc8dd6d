-- ===== src/Anthropic/Client/Start.antt =====
-- A message before and after its start: what a client accepts either way.
use grokcli2api_go.Prelude.{
  String, ◌≡◌, refl, ap, sym, subst, ◌∙◌, true, false, Option, none, some, List, [], ◌∷◌, ◌==◌,
  if_then, if_else, with_option, Bool-cases, inl, inr, ◌⊎◌,
}
use mathlib.Core.Bool.{true≢false}
use mathlib.Core.List.{append_assoc}
use grokcli2api_go.Prelude.Map.{Map, lookup}
use grokcli2api_go.Prelude.Json.{Fields, get_field, text_of}
use grokcli2api_go.Anthropic.Stream.{
  Block, Event, error_event, Translator, Fresh, Moved, stay, and_then, start_event, ensure_start,
  delta, send_delta, close_block,
}
use grokcli2api_go.Anthropic.Stream.Kinds.{Kind, response_over}
use grokcli2api_go.Anthropic.Stream.Cases.{end_part, end_arguments, end_item}
use grokcli2api_go.Anthropic.Client.{step, run, view}
use grokcli2api_go.Anthropic.Client.Blocks.{Descending}
use grokcli2api_go.Anthropic.Client.Steps.{Live, at, Keeps, view-Live, run-append, stay-Keeps}
use grokcli2api_go.Anthropic.Client.Ending.{Done}

-- The message is not over, the blocks have indices of their own, and before the start there are none.
abbrev pub Ready : Translator → Type 0
Ready t =
    (t.finished ≡ false) × Descending t.next_index t.blocks × ((t.started ≡ true) ⊎ (t.blocks ≡ []))

-- What holds of the translator after an event of a kind.
abbrev pub After : Kind → Translator → Type 0
After response_over t = Done t
After kind t = Ready t

-- The client accepts the events, and then knows the translator's new state.
unfoldable pub Accepts : (Translator → Type 0) → Translator → Moved → Type 0
Accepts Q t m = (run (view t) m.1 ≡ some (view m.0)) × Q m.0

Keeps-Accepts : (t : Translator) (m : Moved) → Live t → Keeps t m → Accepts Ready t m
unfolding Accepts
Keeps-Accepts t m l k = (rw (view-Live t l, view-Live m.0 k.1) k.0, (k.1.1, k.1.2, inl k.1.0))

Keeps-View :
    (t : Translator) (m : Moved)
    → Live t
    → Keeps t m
    → (run (at t) m.1 ≡ some (view m.0)) × Ready m.0
Keeps-View t m l k = (rw (view-Live m.0 k.1) k.0, (k.1.1, k.1.2, inl k.1.0))

pub start_event-Live :
    (fresh : Fresh) (response : Option Fields) (t : Translator)
    → t.started ≡ false
    → t.finished ≡ false
    → Descending t.next_index t.blocks
    → (run (view t) (start_event fresh response t).1 ≡ some (at (start_event fresh response t).0))
      × Live (start_event fresh response t).0
unfolding start_event run step
start_event-Live fresh none t s f d = rw (s, f) (refl, (refl, refl, d))
start_event-Live fresh (some r) t s f d = rw (s, f) (refl, (refl, refl, d))

pub begun-Accepts :
    (Q : Translator → Type 0) (fresh : Fresh) (response : Option Fields) (t : Translator)
    (f : Translator → Moved)
    → Ready t
    → ((u : Translator) → Live u → (run (at u) (f u).1 ≡ some (view (f u).0)) × Q (f u).0)
    → Accepts Q t (and_then (ensure_start fresh response t) f)
unfolding Accepts and_then stay
begun-Accepts Q fresh response t f r k = elim (Bool-cases t.started) [
  | inl begun ↦
      let l : Live t = (begun, r.0, r.1) in
      if_then (λ m. Accepts Q t (and_then m f)) t.started (stay t) (start_event fresh response t)
        begun (rw (view-Live t l) (k t l))
  | inr idle ↦
      let s = start_event-Live fresh response t idle r.0 r.1 in
      let next = k (start_event fresh response t).0 s.1 in
      if_else (λ m. Accepts Q t (and_then m f)) t.started (stay t) (start_event fresh response t)
        idle
        (
          run-append (view t) _ (start_event fresh response t).1
                (f (start_event fresh response t).0).1 s.0
              ∙ next.0,
          next.1,
        )
]

pub ensure_start-Accepts :
    (fresh : Fresh) (response : Option Fields) (t : Translator)
    → Ready t
    → Accepts Ready t (ensure_start fresh response t)
unfolding Accepts
ensure_start-Accepts fresh response t r = elim (Bool-cases t.started) [
  | inl begun ↦
      let l : Live t = (begun, r.0, r.1) in
      if_then (Accepts Ready t) t.started (stay t) (start_event fresh response t) begun
        (Keeps-Accepts t (stay t) l (stay-Keeps t l))
  | inr idle ↦
      let s = start_event-Live fresh response t idle r.0 r.1 in
      let u = (start_event fresh response t).0 in
      if_else (Accepts Ready t) t.started (stay t) (start_event fresh response t) idle
        (s.0 ∙ ap some (sym (view-Live u s.1)), (s.1.1, s.1.2, inl s.1.0))
]

-- Events that change nothing a client sees.
pub stay-Accepts : (t : Translator) → Ready t → Accepts Ready t (stay t)
unfolding Accepts stay run
stay-Accepts t r = (refl, r)

-- Without blocks an operation on a block sends nothing.
abbrev pub Quiet : Translator → Moved → Type 0
Quiet t m = m ≡ stay t

pub free_key : (key : String) (t : Translator) → t.blocks ≡ [] → lookup key t.blocks ≡ none
unfolding lookup
free_key key t h = ap (λ (m : Map Block). lookup key m) h

and_then-Quiet :
    (t : Translator) (m : Moved) (f : Translator → Moved)
    → Quiet t m
    → Quiet t (f t)
    → Quiet t (and_then m f)
unfolding and_then stay
and_then-Quiet t m f p q = ap (λ (n : Moved). and_then n f) p ∙ q

close_block-Quiet :
    (key : String) (t : Translator) → lookup key t.blocks ≡ none → Quiet t (close_block key t)
unfolding close_block stay
close_block-Quiet key t h = rw (close_block, h) refl

absent-Quiet :
    (key : String) (t : Translator) (f : Block → Moved)
    → lookup key t.blocks ≡ none
    → Quiet t (with_option (lookup key t.blocks) (stay t) f)
absent-Quiet key t f h = ap (λ (o : Option Block). with_option o (stay t) f) h

pub end_part-Quiet :
    (key : String) (t : Translator) → lookup key t.blocks ≡ none → Quiet t (end_part key t)
unfolding end_part
end_part-Quiet key t h = and_then-Quiet t _ _ (absent-Quiet key t _ h) (close_block-Quiet key t h)

pub end_arguments-Quiet :
    (key : String) (payload : Fields) (t : Translator)
    → lookup key t.blocks ≡ none
    → Quiet t (end_arguments key payload t)
unfolding end_arguments
end_arguments-Quiet key payload t h =
    and_then-Quiet t _ _ (absent-Quiet key t _ h) (close_block-Quiet key t h)

pub end_item-Quiet :
    (fresh : Fresh) (key : String) (item : Fields) (t : Translator)
    → lookup key t.blocks ≡ none
    → (text_of (get_field "type" item) == "web_search_call") ≡ false
    → Quiet t (end_item fresh key item t)
unfolding end_item
end_item-Quiet fresh key item t h w =
    if_else (Quiet t) (text_of (get_field "type" item) == "web_search_call") _ _ w
      (and_then-Quiet t _ _ (absent-Quiet key t _ h) (close_block-Quiet key t h))

pub send_delta-Quiet :
    (key : String) (content : Fields) (t : Translator)
    → lookup key t.blocks ≡ none
    → Quiet t (send_delta key content t)
unfolding send_delta delta stay
send_delta-Quiet key content t h = rw (send_delta, delta, h) refl

-- An operation that a client accepts once the message has started, and that is quiet before.
pub known-Accepts :
    (t : Translator) (m : Moved)
    → Ready t
    → (Live t → Keeps t m)
    → (t.blocks ≡ [] → t.started ≡ false → Quiet t m)
    → Accepts Ready t m
known-Accepts t m r k q = elim (Bool-cases t.started) [
  | inl begun ↦ (let l : Live t = (begun, r.0, r.1) in Keeps-Accepts t m l (k l))
  | inr idle ↦ elim r.2 [
    | inl begun ↦ absurd (true≢false (sym begun ∙ idle))
    | inr free ↦ subst (Accepts Ready t) (sym (q free idle)) (stay-Accepts t r)
  ]
]

-- An operation that comes after ensureStart.
pub begun-Ready :
    (fresh : Fresh) (response : Option Fields) (t : Translator) (f : Translator → Moved)
    → Ready t
    → ((u : Translator) → Live u → Keeps u (f u))
    → Accepts Ready t (and_then (ensure_start fresh response t) f)
begun-Ready fresh response t f r k =
    begun-Accepts Ready fresh response t f r (λ u l. Keeps-View u (f u) l (k u l))

pub and_then_assoc :
    (m : Moved) (f g : Translator → Moved)
    → and_then (and_then m f) g ≡ and_then m (λ t. and_then (f t) g)
unfolding and_then
and_then_assoc m f g =
    ap (λ (es : List Event). ((g (f m.0).0).0, es)) (append_assoc m.1 (f m.0).1 (g (f m.0).0).1)

pub error-Accepts :
    (t : Translator) (message : String) → Ready t → Accepts Ready t (t, error_event message ∷ [])
unfolding Accepts run step
error-Accepts t message r = (refl, r)

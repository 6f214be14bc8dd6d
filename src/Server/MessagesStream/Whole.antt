-- ===== src/Server/MessagesStream/Whole.antt =====
-- A Messages client over a whole stream of a Responses upstream.
use grokcli2api_go.Prelude.{
  String, ◌≡◌, refl, ap, sym, subst, ◌∙◌, Bool, true, false, not, ◌&&◌, ◌||◌, Option, none, some,
  List, [], ◌∷◌, ◌++◌, arith, ◌==◌, eq_iff, if_then, if_else, if_both, has, Bool-cases,
  Option-cases, inl, inr, ◌⊎◌,
}
use mathlib.Core.Option.{some-injective}
use grokcli2api_go.Prelude.Int.{ℤ}
use grokcli2api_go.Prelude.Json.{Fields, as_object, get_field}
use grokcli2api_go.Anthropic.Stream.{Translator, Fresh, Moved, start_event, new_translator}
use grokcli2api_go.Anthropic.Stream.Kinds.{Kind, response_begun, response_over, error_kind, kind_of}
use grokcli2api_go.Anthropic.Stream.Handle.{Upstream, is_over, name_of, handle, handle_kind}
use grokcli2api_go.Anthropic.Client.{Client, new_client, step, run, view}
use grokcli2api_go.Anthropic.Client.Blocks.{Descending}
use grokcli2api_go.Anthropic.Client.Steps.{view-Live, run-append}
use grokcli2api_go.Anthropic.Client.Start.{start_event-Live}
use grokcli2api_go.Anthropic.Client.Accepted.{event_kind}
use grokcli2api_go.Server.MessagesStream.{
  Adapter, Sent, new_adapter, note_id, is_failure, is_success, encode_error, after_translation,
  handle_payload, adapter_handle, adapter_finish, adapter_run,
}
use grokcli2api_go.Server.MessagesStream.Sound.{
  success_kind, Running, Settled, Goes, nothing-Goes, adapter_handle-Goes,
}

-- Events one after the other.
Goes-append : (a : Adapter) (m n : Sent) → Goes a m → Goes m.0 n → Goes a (n.0, m.1 ++ n.1)
unfolding Goes
Goes-append a m n g k =
    (run-append (view a.translator) (view m.0.translator) m.1 n.1 g.0 ∙ k.0, k.1)

Goes-state : (a : Adapter) (m : Sent) → Goes a m → Running m.0 ⊎ Settled m.0
unfolding Goes
Goes-state a m g = g.1

adapter_run-Goes :
    (format_number : ℤ → String) (es : List (Fresh × Upstream)) (a : Adapter) (m : Sent)
    → Running a ⊎ Settled a
    → adapter_run format_number es a ≡ some m
    → Goes a m
unfolding adapter_run
adapter_run-Goes format_number [] a m s h = subst (Goes a) (some-injective _ m h) (nothing-Goes a s)
adapter_run-Goes format_number ((fresh, e) ∷ es) a m s h =
    elim (Option-cases (adapter_handle format_number fresh e a)) [
      | inl absent ↦ (let h = rw (adapter_run, absent) at h in cc)
      | inr first ↦
          let h = rw (adapter_run, first.1) at h in
          let g = adapter_handle-Goes format_number fresh e a first.0 s first.1 in
          elim (Option-cases (adapter_run format_number es first.0.0)) [
            | inl absent ↦ (let h = rw absent at h in cc)
            | inr rest ↦
                let k =
                  adapter_run-Goes format_number es first.0.0 rest.0 (Goes-state a first.0 g)
                    rest.1 in
                subst (Goes a) (some-injective _ m (rw rest.1 at h))
                  (Goes-append a first.0 rest.0 g k)
          ]
    ]

-- Finish settles the stream.
finish-Settled :
    (a : Adapter)
    → Running a ⊎ Settled a
    → (run (view a.translator) (adapter_finish a).1 ≡ some (view (adapter_finish a).0.translator))
      × Settled (adapter_finish a).0
unfolding adapter_finish run step encode_error
finish-Settled a s =
    let Q =
      λ (m : Sent). (run (view a.translator) m.1 ≡ some (view m.0.translator)) × Settled m.0 in
    elim s [
      | inl r ↦ if_else Q a.terminal _ _ r.0 (refl, (refl, inr (refl, r.2.0)))
      | inr d ↦ if_then Q a.terminal _ _ d.0 (refl, d)
    ]

-- A name that begins a response neither fails nor ends it.
begun_name :
    (name : String)
    → kind_of name ≡ response_begun
    → (is_failure name ≡ false) × (is_success name ≡ false)
unfolding kind_of has
begun_name name k = (
  elim (Bool-cases (is_failure name)) [
    | inr fine ↦ fine
    | inl bad ↦ elim (Bool-cases (name == "response.failed")) [
      | inl over ↦
          (let q : response_over ≡ response_begun =
              subst (λ n. kind_of n ≡ response_begun) ((eq_iff name "response.failed").0 over) k in
            cc)
      | inr other ↦
          (let q : error_kind ≡ response_begun =
              subst (λ n. kind_of n ≡ response_begun)
                ((eq_iff name "error").0 (ground (arith, bad, other))) k in
            cc)
    ]
  ],
  elim (Bool-cases (is_success name)) [
    | inr going ↦ going
    | inl good ↦ (let q : response_over ≡ response_begun = sym (success_kind name good) ∙ k in cc)
  ],
)

-- An event that begins the response, on a message that has not started.
handle_begun :
    (format_number : ℤ → String) (fresh : Fresh) (name : String) (payload : Fields) (t : Translator)
    → t.stop_sequence ≡ ""
    → t.started ≡ false
    → event_kind (record { name = name; is_blank = false; decoded = some payload }) ≡ response_begun
    → handle format_number fresh
        (record { name = name; is_blank = false; decoded = some payload })
        t
      ≡ some (start_event fresh (as_object (get_field "response" payload)) t)
unfolding handle handle_kind
handle_begun format_number fresh name payload t s i k =
    let e : Upstream = record { name = name; is_blank = false; decoded = some payload } in
    let start = start_event fresh (as_object (get_field "response" payload)) t in
    ap some (
      if_else (λ (x : Moved). x ≡ start)
        (not (t.stop_sequence == "") && not (is_over (name_of e payload))) _ _
        (ground (arith, (eq_iff t.stop_sequence "").1 s))
        (subst (λ (x : Kind). handle_kind format_number fresh payload x t ≡ start) (sym k)
          (if_else (λ (x : Moved). x ≡ start) t.started _ _ i refl)))

-- What the first event of a new adapter gives.
abbrev Begins : Sent → Type 0
Begins m = (run new_client m.1 ≡ some (view m.0.translator)) × Running m.0

-- An adapter that has seen nothing.
abbrev New : Adapter → Type 0
New a =
    (a.terminal ≡ false)
    × (a.success ≡ false)
    × (view a.translator ≡ new_client)
    × (a.translator.stop_sequence ≡ "")
    × (a.translator.started ≡ false)
    × (a.translator.finished ≡ false)
    × Descending a.translator.next_index a.translator.blocks

begin_translation :
    (fresh : Fresh) (response : Option Fields) (name : String) (a : Adapter)
    → New a
    → is_success name ≡ false
    → Begins (after_translation name a (start_event fresh response a.translator))
unfolding after_translation
begin_translation fresh response name a n going =
    let m = start_event fresh response a.translator in
    let s = start_event-Live fresh response a.translator n.4 n.5 n.6 in
    let seen : run new_client m.1 ≡ some (view m.0) =
      subst (λ (c : Client). run c m.1 ≡ some (view m.0)) n.2
        (s.0 ∙ ap some (sym (view-Live m.0 s.1))) in
    if_else (λ (b : Adapter). (run new_client m.1 ≡ some (view b.translator)) × Running b)
      (is_success name) _ _ going (seen, (n.0, n.1, (s.1.1, s.1.2, inl s.1.0), s.1.0))

begin_payload :
    (format_number : ℤ → String) (fresh : Fresh) (name : String) (payload : Fields) (a : Adapter)
    (m : Sent)
    → New a
    → event_kind (record { name = name; is_blank = false; decoded = some payload }) ≡ response_begun
    → handle_payload format_number fresh
        (record { name = name; is_blank = false; decoded = some payload })
        payload
        a
      ≡ some m
    → Begins m
unfolding handle_payload
begin_payload format_number fresh name payload a m n k =
    let e : Upstream = record { name = name; is_blank = false; decoded = some payload } in
    let noted = note_id payload a in
    let new : New noted = if_both New _ _ _ n n in
    let called = begun_name (name_of e payload) k in
    let start = start_event fresh (as_object (get_field "response" payload)) noted.translator in
    if_else (λ (o : Option Sent). o ≡ some m → Begins m) (is_failure (name_of e payload)) _ _
      called.0
      (λ h.
        let h : some (after_translation (name_of e payload) noted start) ≡ some m =
          rw (handle_begun format_number fresh name payload noted.translator new.3 new.4 k) at h in
        subst Begins (some-injective _ m h) (
          begin_translation fresh (as_object (get_field "response" payload)) (name_of e payload)
            noted new called.1))

begin_parts :
    (format_number : ℤ → String) (fresh : Fresh) (name : String) (is_blank : Bool)
    (decoded : Option Fields) (a : Adapter) (m : Sent)
    → New a
    → event_kind (record { name = name; is_blank = is_blank; decoded = decoded }) ≡ response_begun
    → adapter_handle format_number fresh
        (record { name = name; is_blank = is_blank; decoded = decoded })
        a
      ≡ some m
    → Begins m
unfolding adapter_handle
begin_parts format_number fresh name true decoded a m n k h = cc
begin_parts format_number fresh name false none a m n k h = cc
begin_parts format_number fresh name false (some payload) a m n k h =
    if_else (λ (o : Option Sent). o ≡ some m → Begins m) (a.terminal || false) _ _
      (ground (arith, n.0)) (begin_payload format_number fresh name payload a m n k) h

new_adapter-New :
    (id model : String) (thinking_enabled : Bool) (stop_sequences : List String)
    → New (new_adapter id model thinking_enabled stop_sequences)
unfolding new_adapter new_translator
new_adapter-New id model thinking_enabled stop_sequences = (refl, refl, refl, refl, refl, refl, tt)

-- The whole stream before Finish.
begun_run :
    (format_number : ℤ → String) (fresh : Fresh) (e : Upstream) (es : List (Fresh × Upstream))
    (a : Adapter) (m : Sent)
    → New a
    → event_kind e ≡ response_begun
    → adapter_run format_number ((fresh, e) ∷ es) a ≡ some m
    → (run new_client m.1 ≡ some (view m.0.translator)) × (Running m.0 ⊎ Settled m.0)
unfolding adapter_run Goes
begun_run format_number fresh e es a m n k h =
    let Q = λ (x : Sent).
      (run new_client x.1 ≡ some (view x.0.translator)) × (Running x.0 ⊎ Settled x.0) in
    elim (Option-cases (adapter_handle format_number fresh e a)) [
      | inl absent ↦ (let h = rw (adapter_run, absent) at h in cc)
      | inr first ↦
          let h = rw (adapter_run, first.1) at h in
          let begun =
            begin_parts format_number fresh e.name e.is_blank e.decoded a first.0 n k first.1 in
          elim (Option-cases (adapter_run format_number es first.0.0)) [
            | inl absent ↦ (let h = rw absent at h in cc)
            | inr rest ↦
                let g = adapter_run-Goes format_number es first.0.0 rest.0 (inl begun.1) rest.1 in
                subst Q (some-injective _ m (rw rest.1 at h)) (
                  run-append new_client (view first.0.0.translator) first.0.1 rest.0.1 begun.0
                      ∙ g.0,
                  g.1,
                )
          ]
    ]

-- For a stream whose first event begins the response, whatever events follow: where the adapter gives
-- events, the client accepts all of them, those of Finish included, and the stream is settled: with
-- success, the message over and every block stopped, or with a failure and the message not over.
pub messages_stream_settles :
    (format_number : ℤ → String) (id model : String) (thinking_enabled : Bool)
    (stop_sequences : List String) (fresh : Fresh) (e : Upstream) (es : List (Fresh × Upstream))
    (m : Sent)
    → event_kind e ≡ response_begun
    → adapter_run format_number
        ((fresh, e) ∷ es)
        (new_adapter id model thinking_enabled stop_sequences)
      ≡ some m
    → (run new_client (m.1 ++ (adapter_finish m.0).1)
        ≡ some (view (adapter_finish m.0).0.translator))
      × Settled (adapter_finish m.0).0
messages_stream_settles format_number id model thinking_enabled stop_sequences fresh e es m k h =
    let new = new_adapter-New id model thinking_enabled stop_sequences in
    let seen = begun_run format_number fresh e es _ m new k h in
    let last = finish-Settled m.0 seen.1 in
    (run-append new_client (view m.0.translator) m.1 (adapter_finish m.0).1 seen.0 ∙ last.0, last.1)

-- ===== src/Server/MessagesStream/Total.antt =====
-- The adapter answers every stream of JSON objects, and ends with the event that ends the response.
use mathlib.Core.Option.{some-injective}
use grokcli2api_go.Prelude.{
  ◌==◌, not, ◌&&◌, eq_iff, if◌then◌else◌, sym, subst, ◌∙◌, Bool-cases, inl, inr, ap, if_else,
  String, ◌≡◌, refl, Bool, true, false, ◌||◌, Option, none, some, List, [], ◌∷◌, ◌++◌, arith,
  if_both, if_then, with_option, All,
}
use grokcli2api_go.Prelude.Int.{ℤ}
use grokcli2api_go.Prelude.Json.{Fields}
use grokcli2api_go.Anthropic.Stream.{Translator, Fresh, Moved}
use grokcli2api_go.Anthropic.Stream.Handle.{Upstream, name_of, handle}
use grokcli2api_go.Server.MessagesStream.{
  Adapter, Sent, is_failure, is_success, encode_error, failure_message, note_id, after_translation,
  handle_payload, adapter_handle, adapter_run,
}

-- Whether the adapter can read an event: it is empty or the mark of the end, or a JSON object.
abbrev pub is_readable : Upstream → Bool
is_readable e = e.is_blank || with_option e.decoded false (λ payload. true)

-- An event that ends the response, and one that ends it with success.
abbrev pub is_end : Upstream → Bool
is_end e =
    not e.is_blank
    && with_option e.decoded false
        (λ payload. is_failure (name_of e payload) || is_success (name_of e payload))

abbrev pub is_good_end : Upstream → Bool
is_good_end e =
    not e.is_blank && with_option e.decoded false (λ payload. is_success (name_of e payload))

-- Whether the first event that ends the response does so with success; `before` if none ends it.
abbrev pub succeeds : Bool → List (Fresh × Upstream) → Bool
succeeds before [] = before
succeeds before ((fresh, e) ∷ es) = if is_end e then is_good_end e else succeeds before es

abbrev pub has_end : List (Fresh × Upstream) → Bool
has_end [] = false
has_end ((fresh, e) ∷ es) = is_end e || has_end es

-- There is a result, and it is as it should be.
Answers : {A : Type 0} → (A → Type 0) → Option A → Type 0
Answers {A = A} P o = (m : A) × (o ≡ some m) × P m

answer : {A : Type 0} (P : A → Type 0) (m : A) → P m → Answers P (some m)
unfolding Answers
answer P m h = (m, refl, h)

answer_after :
    {A B : Type 0} (P : A → Type 0) (Q : B → Type 0) (o : Option A) (f : A → Option B)
    → Answers P o
    → ((a : A) → P a → Answers Q (f a))
    → Answers Q (with_option o none f)
unfolding Answers
answer_after P Q none f h k = cc
answer_after P Q (some a) f (m, e, h) k = k a (subst P (sym (some-injective a m e)) h)

-- What an event makes of the marks of an adapter that had not ended.
abbrev Marks : Bool → Bool → Bool → Sent → Type 0
Marks before ending good m =
    (m.0.terminal ≡ ending) × (m.0.success ≡ (if ending then good else before))

-- The translator's Handle.
handle-Answers :
    (format_number : ℤ → String) (fresh : Fresh) (name : String) (payload : Fields) (t : Translator)
    → Answers
        (λ m. Unit)
        (handle format_number fresh
          (record { name = name; is_blank = false; decoded = some payload })
          t)
unfolding handle
handle-Answers format_number fresh name payload t = answer (λ m. Unit) _ tt

after_translation-Marks :
    (name : String) (a : Adapter) (m : Moved)
    → a.terminal ≡ false
    → Marks a.success (is_success name) (is_success name) (after_translation name a m)
unfolding after_translation
after_translation-Marks name a m h = (ground (arith, h), ground (arith, h))

note_id-same :
    (payload : Fields) (a : Adapter)
    → ((note_id payload a).terminal ≡ a.terminal) × ((note_id payload a).success ≡ a.success)
note_id-same payload a =
    if_both (λ (b : Adapter). (b.terminal ≡ a.terminal) × (b.success ≡ a.success)) _ a _
      (refl, refl) (refl, refl)

failure_no_success : (name : String) → is_failure name ≡ true → is_success name ≡ false
failure_no_success name h = elim (Bool-cases (name == "response.failed")) [
  | inl failing ↦
      subst (λ n. is_success n ≡ false) (sym ((eq_iff name "response.failed").0 failing)) refl
  | inr other ↦
      subst (λ n. is_success n ≡ false) (sym ((eq_iff name "error").0 (ground (arith, h, other))))
        refl
]

handle_payload-Answers :
    (format_number : ℤ → String) (fresh : Fresh) (name : String) (payload : Fields) (a : Adapter)
    → a.terminal ≡ false
    → let e : Upstream = record { name = name; is_blank = false; decoded = some payload } in
      Answers
        (Marks a.success (is_end e) (is_good_end e))
        (handle_payload format_number fresh e payload a)
unfolding handle_payload
handle_payload-Answers format_number fresh name payload a h =
    let e : Upstream = record { name = name; is_blank = false; decoded = some payload } in
    let noted = note_id payload a in
    let same = note_id-same payload a in
    elim (Bool-cases (is_failure (name_of e payload))) [
      | inl failing ↦
          rw (handle_payload, failing, failure_no_success (name_of e payload) failing)
            (answer (Marks a.success true false)
              (
                record noted { terminal = true; success = false },
                encode_error (failure_message payload) ∷ [],
              )
              (refl, refl))
      | inr fine ↦
          rw (handle_payload, fine)
            (answer_after (λ m. Unit)
              (Marks a.success (is_success (name_of e payload)) (is_success (name_of e payload)))
              (handle format_number fresh e noted.translator)
              (λ m. some (after_translation (name_of e payload) noted m))
              (handle-Answers format_number fresh name payload noted.translator)
              (λ m h'. answer _ _ (
                subst
                  (λ b.
                    Marks b (is_success (name_of e payload)) (is_success (name_of e payload))
                      (after_translation (name_of e payload) noted m))
                  same.1 (after_translation-Marks (name_of e payload) noted m (same.0 ∙ h)))))
    ]

adapter_handle-Answers :
    (format_number : ℤ → String) (fresh : Fresh) (name : String) (is_blank : Bool)
    (decoded : Option Fields) (a : Adapter)
    → let e : Upstream = record { name = name; is_blank = is_blank; decoded = decoded } in
      is_readable e ≡ true
      → a.terminal ≡ false
      → Answers
          (Marks a.success (is_end e) (is_good_end e))
          (adapter_handle format_number fresh e a)
unfolding adapter_handle
adapter_handle-Answers format_number fresh name true decoded a r h =
    if_then (Answers (Marks a.success false false)) (a.terminal || true) (some (a, [])) _
      (ground arith) (answer (Marks a.success false false) (a, []) (h, refl))
adapter_handle-Answers format_number fresh name false (some payload) a r h =
    let e : Upstream = record { name = name; is_blank = false; decoded = some payload } in
    if_else (Answers (Marks a.success (is_end e) (is_good_end e))) (a.terminal || false)
      (some (a, [])) _ (ground (arith, h))
      (handle_payload-Answers format_number fresh name payload a h)
adapter_handle-Answers format_number fresh name false none a r h = cc

-- An adapter that has ended ignores what follows.
handle_ended :
    (format_number : ℤ → String) (fresh : Fresh) (e : Upstream) (a : Adapter)
    → a.terminal ≡ true
    → adapter_handle format_number fresh e a ≡ some (a, [])
unfolding adapter_handle
handle_ended format_number fresh e a h =
    if_then (λ (o : Option Sent). o ≡ some (a, [])) (a.terminal || e.is_blank) (some (a, [])) _
      (ground (arith, h)) refl

run_ended :
    (format_number : ℤ → String) (es : List (Fresh × Upstream)) (a : Adapter)
    → a.terminal ≡ true
    → adapter_run format_number es a ≡ some (a, [])
unfolding adapter_run
run_ended format_number [] a h = refl
run_ended format_number ((fresh, e) ∷ es) a h =
    ap
      (λ o. with_option o none (λ (m : Sent).
        with_option (adapter_run format_number es m.0) none (λ (n : Sent). some (n.0, m.1 ++ n.1))))
      (handle_ended format_number fresh e a h)
    ∙ ap (λ o. with_option o none (λ (n : Sent). some (n.0, [] ++ n.1)))
        (run_ended format_number es a h)

-- The marks after a whole stream.
abbrev Final : Bool → List (Fresh × Upstream) → Sent → Type 0
Final before es m = (m.0.terminal ≡ has_end es) × (m.0.success ≡ succeeds before es)

went :
    (ending good after before : Bool) (es : List (Fresh × Upstream))
    → ending ≡ false
    → after ≡ (if ending then good else before)
    → succeeds after es ≡ (if ending then good else succeeds before es)
went true good after before es h e = cc
went false good after before es h e = ap (λ b. succeeds b es) e

run-Answers :
    (format_number : ℤ → String) (es : List (Fresh × Upstream)) (a : Adapter)
    → All (λ (x : Fresh × Upstream). is_readable x.1 ≡ true) es
    → a.terminal ≡ false
    → Answers (Final a.success es) (adapter_run format_number es a)
unfolding adapter_run
run-Answers format_number [] a r h = answer (Final a.success []) (a, []) (h, refl)
run-Answers format_number ((fresh, e) ∷ es) a r h =
    let whole = Final a.success ((fresh, e) ∷ es) in
    answer_after (Marks a.success (is_end e) (is_good_end e)) whole
      (adapter_handle format_number fresh e a)
      (λ m. with_option (adapter_run format_number es m.0) none (λ n. some (n.0, m.1 ++ n.1)))
      (adapter_handle-Answers format_number fresh e.name e.is_blank e.decoded a r.0 h)
      (λ m marks.
        let rest : Sent → Option Sent = λ n. some (n.0, m.1 ++ n.1) in
        elim (Bool-cases (is_end e)) [
          | inl over ↦
              subst (λ o. Answers whole (with_option o none rest))
                (sym (run_ended format_number es m.0 (marks.0 ∙ over)))
                (answer whole (m.0, m.1 ++ [])
                  (ground (arith, marks.0, over), ground (arith, marks.1, over)))
          | inr going ↦
              answer_after (Final m.0.success es) whole (adapter_run format_number es m.0) rest
                (run-Answers format_number es m.0 r.1 (marks.0 ∙ going))
                (λ n final.
                  answer whole (n.0, m.1 ++ n.1)
                    (
                      ground (arith, final.0, going),
                      final.1
                          ∙ went (is_end e) (is_good_end e) m.0.success a.success es going marks.1,
                    ))
        ])

-- A stream of events that the adapter can read, whatever they are, is run to its end, from an adapter
-- that has not ended. The adapter has ended then just if one of the events ends the response, and with
-- success just if the first such event is response.completed or response.incomplete; where there is
-- none, its mark of success is as it was.
pub adapter_run_total :
    (format_number : ℤ → String) (es : List (Fresh × Upstream)) (a : Adapter)
    → All (λ (x : Fresh × Upstream). is_readable x.1 ≡ true) es
    → a.terminal ≡ false
    → (m : Sent) × (adapter_run format_number es a ≡ some m)
      × (m.0.terminal ≡ has_end es)
      × (m.0.success ≡ succeeds a.success es)
unfolding Answers
adapter_run_total format_number es a r h =
    let run = run-Answers format_number es a r h in (run.0, run.1, run.2.0, run.2.1)

-- ===== src/Server/MessagesStream/Sound.antt =====
-- What a Messages client gets from the adapter over a whole stream.
use grokcli2api_go.Prelude.{
  String, ◌≡◌, refl, subst, Bool, true, false, ◌||◌, Option, none, some, [], ◌∷◌, arith, ◌==◌,
  eq_iff, if◌then◌else◌, if_then, if_else, if_both, with_option, has, Bool-cases, Option-cases, inl,
  inr, ◌⊎◌,
}
use mathlib.Core.Option.{some-injective}
use grokcli2api_go.Prelude.Int.{ℤ}
use grokcli2api_go.Prelude.Json.{Fields}
use grokcli2api_go.Anthropic.Stream.{Translator, Fresh, Moved}
use grokcli2api_go.Anthropic.Stream.Kinds.{Kind, response_over, kind_of}
use grokcli2api_go.Anthropic.Stream.Handle.{Upstream, name_of, is_over, handle}
use grokcli2api_go.Anthropic.Client.{step, run, view}
use grokcli2api_go.Anthropic.Client.Ending.{Done}
use grokcli2api_go.Anthropic.Client.Start.{Ready, After}
use grokcli2api_go.Anthropic.Client.Accepted.{event_kind, handle_refines, After-going}
use grokcli2api_go.Anthropic.Client.Progress.{kept-started}
use grokcli2api_go.Server.MessagesStream.{
  Adapter, Sent, note_id, is_failure, is_success, encode_error, failure_message, after_translation,
  handle_payload, adapter_handle,
}

text_sym : (s t : String) → (s == t) ≡ (t == s)
text_sym s t = ground (arith, eq_iff s t, eq_iff t s)

over_cases :
    (name : String) → is_failure name ≡ false → is_success name ≡ false → is_over name ≡ false
unfolding has
over_cases name f s =
    rw
      (
        text_sym "response.completed" name,
        text_sym "response.incomplete" name,
        text_sym "response.failed" name,
      )
      (ground (arith, f, s))

pub success_kind : (name : String) → is_success name ≡ true → kind_of name ≡ response_over
unfolding kind_of has
success_kind name h = elim (Bool-cases (name == "response.completed")) [
  | inl done ↦ rw ((eq_iff name "response.completed").0 done) refl
  | inr other ↦ rw ((eq_iff name "response.incomplete").0 (ground (arith, h, other))) refl
]

-- What a test decides, with its answer.
pub if_cases {ℓ κ} :
    {A : Type ℓ} (P : A → Type κ) (b : Bool) (x y : A)
    → (b ≡ true → P x)
    → (b ≡ false → P y)
    → P (if b then x else y)
if_cases P true x y h k = h refl
if_cases P false x y h k = k refl

-- The message is going on.
abbrev pub Running : Adapter → Type 0
Running a =
    (a.terminal ≡ false) × (a.success ≡ false) × Ready a.translator × (a.translator.started ≡ true)

-- The stream has been ended: with the message over, or with a failure before that.
abbrev pub Settled : Adapter → Type 0
Settled a =
    (a.terminal ≡ true)
    × ((a.success ≡ true) × Done a.translator
        ⊎ (a.success ≡ false) × (a.translator.finished ≡ false))

-- The client accepts the events, and then the adapter is in a state that makes sense.
unfoldable pub Goes : Adapter → Sent → Type 0
Goes a m = (run (view a.translator) m.1 ≡ some (view m.0.translator)) × (Running m.0 ⊎ Settled m.0)

pub nothing-Goes : (a : Adapter) → Running a ⊎ Settled a → Goes a (a, [])
unfolding Goes run
nothing-Goes a s = (refl, s)

after_translation-Goes :
    (format_number : ℤ → String) (fresh : Fresh) (e : Upstream) (payload : Fields) (a : Adapter)
    (m : Moved)
    → Running a
    → event_kind e ≡ kind_of (name_of e payload)
    → is_failure (name_of e payload) ≡ false
    → handle format_number fresh e a.translator ≡ some m
    → Goes a (after_translation (name_of e payload) a m)
unfolding Goes after_translation
after_translation-Goes format_number fresh e payload a m r k f h =
    let name = name_of e payload in
    let done = handle_refines format_number fresh e a.translator m r.2 (rw r.3 refl) h in
    let after = subst (λ (x : Kind). After x m.0) k done.1 in
    let Q = λ (b : Adapter).
      (run (view a.translator) m.1 ≡ some (view b.translator)) × (Running b ⊎ Settled b) in
    elim (Bool-cases (is_success name)) [
      | inl good ↦
          let over = subst (λ (x : Kind). After x m.0) (success_kind name good) after in
          if_then Q (is_success name) _ _ good (done.0, inr (refl, inl (refl, over)))
      | inr going ↦
          let ready = After-going name m.0 (over_cases name f going) after in
          if_else Q (is_success name) _ _ going
            (done.0, inl (r.0, r.1, ready, kept-started a.translator m r.3 r.2.0 ready.0 done.0))
    ]

note_id-Running : (payload : Fields) (a : Adapter) → Running a → Running (note_id payload a)
note_id-Running payload a r = if_both Running _ _ _ r r

pub note_id-translator :
    (payload : Fields) (a : Adapter) → (note_id payload a).translator ≡ a.translator
note_id-translator payload a =
    if_both (λ (b : Adapter). b.translator ≡ a.translator) _ _ _ refl refl

Goes-note_id : (payload : Fields) (a : Adapter) (m : Sent) → Goes (note_id payload a) m → Goes a m
unfolding Goes
Goes-note_id payload a m g = (
  subst (λ (t : Translator). run (view t) m.1 ≡ some (view m.0.translator))
      (note_id-translator payload a) g.0,
  g.1,
)

failure-Goes :
    (payload : Fields) (a : Adapter) (message : String)
    → Running a
    → Goes a (record a { terminal = true; success = false }, encode_error message ∷ [])
unfolding Goes run step encode_error
failure-Goes payload a message r = (refl, inr (refl, inr (refl, r.2.0)))

handle_payload-Goes :
    (format_number : ℤ → String) (fresh : Fresh) (e : Upstream) (payload : Fields) (a : Adapter)
    (m : Sent)
    → Running a
    → event_kind e ≡ kind_of (name_of e payload)
    → handle_payload format_number fresh e payload a ≡ some m
    → Goes a m
unfolding handle_payload
handle_payload-Goes format_number fresh e payload a m r k =
    let name = name_of e payload in
    let noted = note_id payload a in
    let running = note_id-Running payload a r in
    let P = λ (o : Option Sent). o ≡ some m → Goes a m in
    if_cases P (is_failure name) _ _
      (λ bad h.
        subst (Goes a) (some-injective _ m h)
          (Goes-note_id payload a _ (failure-Goes payload noted (failure_message payload) running)))
      (λ fine h. elim (Option-cases (handle format_number fresh e noted.translator)) [
        | inl absent ↦ (let h = rw absent at h in cc)
        | inr there ↦ subst (Goes a) (some-injective _ m (rw there.1 at h)) (
            Goes-note_id payload a _ (
              after_translation-Goes format_number fresh e payload noted there.0 running k fine
                there.1))
      ])

-- The adapter's Handle, on the fields of the event.
handle_parts-Goes :
    (format_number : ℤ → String) (fresh : Fresh) (name : String) (is_blank : Bool)
    (decoded : Option Fields) (a : Adapter) (m : Sent)
    → Running a
    → adapter_handle format_number fresh
        (record { name = name; is_blank = is_blank; decoded = decoded })
        a
      ≡ some m
    → Goes a m
unfolding adapter_handle
handle_parts-Goes format_number fresh name is_blank decoded a m r =
    if_cases (λ (o : Option Sent). o ≡ some m → Goes a m) (a.terminal || is_blank) _ _
      (λ b h. subst (Goes a) (some-injective _ m h) (nothing-Goes a (inl r)))
      (λ b h. decoded_part is_blank decoded b h)
  where
    decoded_part :
        (is_blank : Bool) (decoded : Option Fields)
        → (a.terminal || is_blank) ≡ false
        → with_option decoded none (λ payload.
          handle_payload format_number fresh
            (record { name = name; is_blank = is_blank; decoded = decoded })
            payload
            a)
          ≡ some m
        → Goes a m
    decoded_part is_blank none b h = cc
    decoded_part false (some payload) b h =
        handle_payload-Goes format_number fresh _ payload a m r refl h
    decoded_part true (some payload) b h = absurd (ground (arith, b))

pub adapter_handle-Goes :
    (format_number : ℤ → String) (fresh : Fresh) (e : Upstream) (a : Adapter) (m : Sent)
    → Running a ⊎ Settled a
    → adapter_handle format_number fresh e a ≡ some m
    → Goes a m
unfolding adapter_handle
adapter_handle-Goes format_number fresh e a m (inl r) h =
    handle_parts-Goes format_number fresh e.name e.is_blank e.decoded a m r h
adapter_handle-Goes format_number fresh e a m (inr s) h =
    if_then (λ (o : Option Sent). o ≡ some m → Goes a m) (a.terminal || e.is_blank) _ _
      (ground (arith, s.0))
      (λ same. subst (Goes a) (some-injective _ m same) (nothing-Goes a (inr s))) h

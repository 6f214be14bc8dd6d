-- ===== src/Server/Execution/Collected.antt =====
-- The signatures of a stream are collected whole, in whatever pieces and order they came.
use Prim.Native.Char.{Char}
use text.Mathlib.TextLemmas.{append-nil, nil-append, append_assoc}
use grokcli2api_go.Prelude.{
  inl, inr, String, ◌≡◌, ◌≢◌, refl, ap, sym, subst, ◌∙◌, Bool, true, false, some, List, [], ◌∷◌,
  ◌==◌, if◌then◌else◌, if_both, Bool-cases, Option-cases, with_option, option_both, has, map,
}
use grokcli2api_go.Prelude.Int.{ℤ, int_eqb}
use grokcli2api_go.Prelude.Table.{find, int_eqb_iff}
use grokcli2api_go.Prelude.Text.{trim_space, to_lower, join_text}
use grokcli2api_go.Prelude.Json.{
  Fields, no_fields, one_field, number, string, object, get_field, find_field, text_of, fields_of,
}
use grokcli2api_go.Anthropic.Stream.Handle.{Upstream}
use grokcli2api_go.Server.Execution.Commit.{response_state_tokens, visit}
use grokcli2api_go.Server.Execution.Collector.{
  Collector, collect_all, finish_signature, write_signature, tokens_of, index_of, kind_in, observe,
  observe_kind, observe_all,
}
use grokcli2api_go.Server.Execution.Kept.{
  Grows, collect_all-Grows, finish_signature-Grows, write_signature-Grows, finish_signature-has,
  find-finish_signature, find-write_signature, tokens_of-Grows, tokens_of-has,
}

-- The events of the Messages protocol that carry a piece of the signature of a block, and end a block.
pub data Emitted : Type 0 where
  piece : ℤ → String → Emitted
  ended : ℤ → Emitted

abbrev event : String → Fields → Upstream
event name payload = record { name = name; is_blank = false; decoded = some payload }

abbrev pub event_of : Emitted → Upstream
event_of (piece i text) = event "content_block_delta" (
    one_field "type" (string "content_block_delta") (
      one_field "index" (number i) (
        one_field "delta"
          (object (
            one_field "type" (string "signature_delta")
              (one_field "signature" (string text) no_fields)))
          no_fields)))
event_of (ended i) =
    event "content_block_stop"
      (one_field "type" (string "content_block_stop") (one_field "index" (number i) no_fields))

-- The pieces of the signature of a block, joined.
abbrev pub signature_text : ℤ → List Emitted → String
signature_text i [] = ""
signature_text i (piece j text ∷ es) =
    let rest = signature_text i es in if int_eqb j i then join_text text rest else rest
signature_text i (ended j ∷ es) = signature_text i es

abbrev pub NotEnded : ℤ → List Emitted → Type 0
NotEnded i [] = Unit
NotEnded i (piece j text ∷ es) = NotEnded i es
NotEnded i (ended j ∷ es) = (int_eqb j i ≡ false) × NotEnded i es

-- What is written of the signature of a block.
unfoldable pub held : ℤ → Collector → String
held i c = with_option (find i c.signatures) "" (λ s. s)

held-write_signature :
    (i j : ℤ) (text : String) (c : Collector)
    → held i (write_signature j text c)
      ≡ (if int_eqb j i then join_text (held i c) text else held i c)
unfolding held
held-write_signature i j text c = elim (Bool-cases (int_eqb j i)) [
  | inl same ↦
      rw (find-write_signature j i text c, same)
        (ap (λ k. join_text (with_option (find k c.signatures) "" (λ s. s)) text)
          ((int_eqb_iff j i).0 same))
  | inr other ↦ rw (find-write_signature j i text c, other) refl
]

held-finish_signature :
    (i j : ℤ) (c : Collector) → int_eqb j i ≡ false → held i (finish_signature j c) ≡ held i c
unfolding held
held-finish_signature i j c h = rw (find-finish_signature j i c, h) refl

-- What is written is there to be found.
find-held :
    (i : ℤ) (c : Collector) → trim_space (held i c) ≢ "" → find i c.signatures ≡ some (held i c)
unfolding held trim_space
find-held i c n = elim (Option-cases (find i c.signatures)) [
  | inl unknown ↦ absurd (n (rw unknown refl))
  | inr known ↦ rw known.1 refl
]

module _ (other : Char → Char) (equal_fold : String → String → Bool) where
  observe_kind-Grows :
      (kind : String) (i : ℤ) (payload : Fields) (c : Collector)
      → Grows c (observe_kind other equal_fold kind i payload c)
  unfolding observe_kind
  observe_kind-Grows kind i payload c =
      let delta = fields_of (get_field "delta" payload) in
      if_both (Grows c) (kind == "content_block_delta") _ _
        (if_both (Grows c) (equal_fold (text_of (get_field "type" delta)) "signature_delta")
          (write_signature i (text_of (get_field "signature" delta)) c) c
          (write_signature-Grows i (text_of (get_field "signature" delta)) c) (λ k h. h))
        (if_both (Grows c) (kind == "content_block_stop") (finish_signature i c) c
          (finish_signature-Grows i c) (λ k h. h))

  observe-Grows : (e : Upstream) (c : Collector) → Grows c (observe other equal_fold e c)
  unfolding observe
  observe-Grows e c k h =
      if_both (λ (r : Collector). has k r.tokens ≡ true) e.is_blank _ _ h
        (option_both (λ (r : Collector). has k r.tokens ≡ true) e.decoded c _ h
          (λ payload.
            observe_kind-Grows (kind_in other equal_fold e.name payload) (index_of payload) payload
              (collect_all (response_state_tokens other payload) c) k
              (collect_all-Grows (response_state_tokens other payload) c k h)))

  observe_all-Grows :
      (es : List Upstream) (c : Collector) → Grows c (observe_all other equal_fold es c)
  unfolding observe_all
  observe_all-Grows [] c k h = h
  observe_all-Grows (e ∷ es) c k h =
      observe_all-Grows es (observe other equal_fold e c) k (observe-Grows e c k h)

  observe_ended :
      (i : ℤ) (c : Collector)
      → observe other equal_fold (event_of (ended i)) c ≡ finish_signature i c
  unfolding observe observe_kind response_state_tokens visit to_lower trim_space get_field
      find_field
  observe_ended i c = refl

  module _ (fold : (s : String) → equal_fold s s ≡ true) where
    observe_piece :
        (i : ℤ) (text : String) (c : Collector)
        → observe other equal_fold (event_of (piece i text)) c ≡ write_signature i text c
    unfolding observe observe_kind response_state_tokens visit to_lower trim_space get_field
        find_field
    observe_piece i text c = rw (fold "signature_delta") refl

    held-observe_all :
        (i : ℤ) (es : List Emitted) (c : Collector)
        → NotEnded i es
        → held i (observe_all other equal_fold (map event_of es) c)
          ≡ join_text (held i c) (signature_text i es)
    unfolding observe_all
    held-observe_all i [] c h = sym (append-nil (held i c))
    held-observe_all i (piece j text ∷ es) c h =
        ap (λ r. held i (observe_all other equal_fold (map event_of es) r)) (observe_piece j text c)
        ∙ held-observe_all i es (write_signature j text c) h
        ∙ elim (Bool-cases (int_eqb j i)) [
          | inl same ↦
              rw (held-write_signature i j text c, same)
                (append_assoc (held i c) text (signature_text i es))
          | inr apart ↦ rw (held-write_signature i j text c, apart) refl
        ]
    held-observe_all i (ended j ∷ es) c h =
        ap (λ r. held i (observe_all other equal_fold (map event_of es) r)) (observe_ended j c)
        ∙ held-observe_all i es (finish_signature j c) h.1
        ∙ ap (λ t. join_text t (signature_text i es)) (held-finish_signature i j c h.0)

    -- Where equal_fold relates each text to itself: the signature of a block that nothing is written of
    -- yet, which comes in pieces among the pieces and ends of other blocks, is one of the tokens,
    -- trimmed, unless it is blank; both while its block has not ended, and after the end of its block and
    -- any further events.
    pub signature_collected :
        (i : ℤ) (es : List Emitted) (later : List Upstream) (c : Collector)
        → held i c ≡ ""
        → NotEnded i es
        → trim_space (signature_text i es) ≢ ""
        → (has
              (trim_space (signature_text i es))
              (tokens_of (observe_all other equal_fold (map event_of es) c))
            ≡ true)
          × (has (trim_space (signature_text i es)) (
                tokens_of (
                  observe_all other equal_fold later (
                    observe other equal_fold
                      (event_of (ended i))
                      (observe_all other equal_fold (map event_of es) c))))
              ≡ true)
    signature_collected i es later c e h n =
        let text = signature_text i es in
        let token = trim_space text in
        let before = observe_all other equal_fold (map event_of es) c in
        let after = observe other equal_fold (event_of (ended i)) before in
        let whole : held i before ≡ text =
          held-observe_all i es c h ∙ ap (λ t. join_text t text) e ∙ nil-append text in
        let written =
          find-held i before (subst (λ t. trim_space t ≢ "") (sym whole) n)
          ∙ ap (λ t. some t) whole in
        let stopped =
          ap (λ (r : Collector). has token r.tokens) (observe_ended i before)
          ∙ finish_signature-has i before text written n in
        (
          tokens_of-has i before text written n,
          tokens_of-Grows (observe_all other equal_fold later after) token
              (observe_all-Grows later after token stopped),
        )

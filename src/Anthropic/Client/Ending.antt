-- ===== src/Anthropic/Client/Ending.antt =====
-- The end of a message: finish closes every block, and the client reaches its last state.
use grokcli2api_go.Prelude.{
  ℕ, String, ◌≡◌, refl, subst, ◌∙◌, Bool, true, false, ◌||◌, Option, none, some, List, [], ◌∷◌,
  arith, ◌==◌, eq_iff, if◌then◌else◌, if_both, if_else, has, map, Bool-cases, Option-cases, inl,
  inr,
}
use grokcli2api_go.Prelude.Map.{Map, lookup, found}
use grokcli2api_go.Prelude.Int.{ℤ}
use grokcli2api_go.Prelude.Json.{Fields, get_field, text_of, as_object, fields_of}
use grokcli2api_go.Anthropic.Stream.{
  Block, message_delta, message_stop, Translator, Moved, stay, and_then, close_block, close_keys,
  flush_text, sort_keys, read_usage, name_sequence, cut_short, read_end, end_message, finish,
}
use grokcli2api_go.Anthropic.Client.{over, streaming, open_indices, step, run, view}
use grokcli2api_go.Anthropic.Client.Blocks.{
  Descending, lookup-adjust, is_shut, shut-open_indices, has-sort_keys, set_closed,
}
use grokcli2api_go.Anthropic.Client.Steps.{
  Live, at, Keeps, run-append, and_then-Keeps, stay-Keeps, close_keys-Keeps, flush_text-Keeps,
}

shut-other :
    (k j : String) (m : Map Block)
    → is_shut (lookup k m) ≡ true
    → (k == j || is_shut (lookup j m)) ≡ true
    → is_shut (lookup j m) ≡ true
shut-other k j m here h = elim (Bool-cases (k == j)) [
  | inl same ↦ subst (λ i. is_shut (lookup i m) ≡ true) ((eq_iff k j).0 same) here
  | inr other ↦ rw other at h
]

shut-set_closed :
    (b : Bool) (o : Option Block)
    → (b || is_shut o) ≡ true
    → is_shut (if b then elim o [ none ↦ none | some x ↦ some (set_closed x) ] else o) ≡ true
shut-set_closed true none h = refl
shut-set_closed true (some x) h = refl
shut-set_closed false o h = h

-- A key is shut after its block is closed, and stays shut.
shut-close_block :
    (k j : String) (t : Translator)
    → (k == j || is_shut (lookup j t.blocks)) ≡ true
    → is_shut (lookup j (close_block k t).0.blocks) ≡ true
unfolding close_block
shut-close_block k j t h = elim (Option-cases (lookup k t.blocks)) [
  | inl free ↦ rw (close_block, free) (shut-other k j t.blocks (rw free refl) h)
  | inr there ↦ elim (Bool-cases there.0.closed) [
    | inl shut ↦
        rw (close_block, there.1, shut) (shut-other k j t.blocks (rw (there.1, shut) refl) h)
    | inr live ↦
        rw (close_block, there.1, live)
          (rw (lookup-adjust j k set_closed t.blocks)
            (shut-set_closed (k == j) (lookup j t.blocks) h))
  ]
]

shut-close_keys :
    (ks : List (String × ℕ)) (j : String) (t : Translator)
    → (has j (map (λ y. y.0) ks) || is_shut (lookup j t.blocks)) ≡ true
    → is_shut (lookup j (close_keys ks t).0.blocks) ≡ true
unfolding close_keys stay has and_then
shut-close_keys [] j t h = h
shut-close_keys (k ∷ ks) j t h =
    shut-close_keys ks j (close_block k.0 t).0 (elim (Bool-cases (has j (map (λ y. y.0) ks))) [
      | inl later ↦ rw later refl
      | inr here ↦ rw (here, shut-close_block k.0 j t (ground (arith, h, here))) refl
    ])

found-or-shut : (o : Option Block) → (found o || is_shut o) ≡ true
found-or-shut none = refl
found-or-shut (some b) = refl

close_keys-all :
    (t : Translator) → Live t → open_indices (close_keys (sort_keys t.blocks) t).0.blocks ≡ []
close_keys-all t l =
    let closed = close_keys-Keeps (sort_keys t.blocks) t l in
    shut-open_indices _ _ closed.1.2 (λ j.
      shut-close_keys (sort_keys t.blocks) j t
        (rw (has-sort_keys j t.blocks) (found-or-shut (lookup j t.blocks))))

-- What finish reads from the response leaves the blocks alone.
abbrev SameBlocks : Translator → Translator → Type 0
SameBlocks t u = (u.next_index ≡ t.next_index) × (u.blocks ≡ t.blocks)

name_sequence-SameBlocks : (s : String) (t : Translator) → SameBlocks t (name_sequence s t)
name_sequence-SameBlocks s t = if_both (SameBlocks t) _ _ t (refl, refl) (refl, refl)

cut_short-SameBlocks : (s : String) (t : Translator) → SameBlocks t (cut_short s t)
cut_short-SameBlocks s t = if_both (SameBlocks t) _ _ t (refl, refl) (refl, refl)

read_end-SameBlocks :
    (response : Option Fields) (t : Translator) → SameBlocks t (read_end response t)
read_end-SameBlocks none t = (refl, refl)
read_end-SameBlocks (some r) t =
    let used = record t {
      output_tokens =
          read_usage (as_object (get_field "usage" r)) t.output_tokens "output_tokens"
            "completion_tokens";
    } in
    let named = name_sequence (text_of (get_field "stop_sequence" r)) used in
    let first = name_sequence-SameBlocks (text_of (get_field "stop_sequence" r)) used in
    let second =
      cut_short-SameBlocks
        (text_of (get_field "reason" (fields_of (get_field "incomplete_details" r)))) named in
    (second.0 ∙ first.0, second.1 ∙ first.1)

run-end :
    (n : ℕ) (reason sequence : String) (count : ℤ)
    → run
        (record { phase = streaming; next = n; opened = [] })
        (message_delta reason sequence count ∷ message_stop ∷ [])
      ≡ some (record { phase = over; next = n; opened = [] })
unfolding run step
run-end n reason sequence count = refl

-- The message is over and each of its blocks is closed.
abbrev pub Done : Translator → Type 0
Done t = (t.finished ≡ true) × (open_indices t.blocks ≡ []) × Descending t.next_index t.blocks

-- The client accepts the events, and then the message is over.
abbrev pub Ends : Translator → Moved → Type 0
Ends t m = (run (at t) m.1 ≡ some (view m.0)) × Done m.0

end_message-Ends :
    (response : Option Fields) (t : Translator)
    → Live t
    → open_indices t.blocks ≡ []
    → Ends t (end_message response t)
unfolding end_message
end_message-Ends response t l none_open =
    let same = read_end-SameBlocks response t in
    (
      rw (same.0, same.1, none_open) (run-end t.next_index _ _ _),
      (refl, rw same.1 none_open, rw (same.0, same.1) l.2),
    )

-- finish gives a live message its end.
pub finish-Ends : (response : Option Fields) (t : Translator) → Live t → Ends t (finish response t)
unfolding finish and_then
finish-Ends response t l =
    let first = if t.text_key == "" then stay t else flush_text t.text_key t in
    let flushed =
      if_both (Keeps t) (t.text_key == "") _ _ (stay-Keeps t l) (flush_text-Keeps t.text_key t l) in
    let close = λ (u : Translator). close_keys (sort_keys u.blocks) u in
    let closed =
      and_then-Keeps t first close flushed (λ u. close_keys-Keeps (sort_keys u.blocks) u) in
    let m = and_then first close in
    let last = end_message-Ends response m.0 closed.1 (close_keys-all first.0 flushed.1) in
    if_else (Ends t) t.finished (stay t) (and_then m (end_message response)) l.1
      (run-append (at t) (at m.0) m.1 (end_message response m.0).1 closed.0 ∙ last.0, last.1)

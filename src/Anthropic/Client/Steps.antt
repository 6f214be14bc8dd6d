-- ===== src/Anthropic/Client/Steps.antt =====
-- The operations on blocks, as a client sees them: each keeps the stream acceptable.
use grokcli2api_go.Prelude.{
  ℕ, String, ◌≡◌, refl, ◌∙◌, true, false, not, some, List, [], ◌∷◌, ◌++◌, arith, ◌==◌, Bool-cases,
  Option-cases, inl, inr, if_both, is_nil,
}
use grokcli2api_go.Prelude.Map.{lookup}
use grokcli2api_go.Prelude.Json.{Fields}
use grokcli2api_go.Anthropic.Stops.{flush}
use grokcli2api_go.Anthropic.Stream.{
  Block, BlockKind, Event, content_block_delta, content_block_stop, Translator, Moved, stay,
  and_then, write_block, send_delta, open_block, delta, close_block, flush_text, close_keys,
}
use grokcli2api_go.Anthropic.Client.{
  Client, streaming, open_indices, has_index, drop_index, step, run, view,
}
use grokcli2api_go.Anthropic.Client.Blocks.{
  Descending, Descending-adjust, open_indices-adjust, has_index-open, set_closed,
  open_indices-close,
}

-- The message has started and not finished, and the blocks have indices of their own.
abbrev pub Live : Translator → Type 0
Live t = (t.started ≡ true) × (t.finished ≡ false) × Descending t.next_index t.blocks

-- What a client knows of a live translator.
abbrev pub at : Translator → Client
at t = record { phase = streaming; next = t.next_index; opened = open_indices t.blocks }

pub view-Live : (t : Translator) → Live t → view t ≡ at t
view-Live t l = rw (l.0, l.1) refl

-- The client accepts the events, and then knows the translator's new state, which is live.
abbrev pub Keeps : Translator → Moved → Type 0
Keeps t m = (run (at t) m.1 ≡ some (at m.0)) × Live m.0

pub run-append :
    (c d : Client) (es fs : List Event) → run c es ≡ some d → run c (es ++ fs) ≡ run d fs
unfolding run
run-append c d [] fs h = cc
run-append c d (e ∷ es) fs h = elim (Option-cases (step c e)) [
  | inl bad ↦ (let h = rw (run, bad) at h in cc)
  | inr good ↦ rw (run, good.1) (run-append good.0 d es fs (rw (run, good.1) at h))
]

pub and_then-Keeps :
    (t : Translator) (m : Moved) (f : Translator → Moved)
    → Keeps t m
    → ((u : Translator) → Live u → Keeps u (f u))
    → Keeps t (and_then m f)
unfolding and_then
and_then-Keeps t m f h k =
    let next = k m.0 h.1 in (run-append (at t) (at m.0) m.1 (f m.0).1 h.0 ∙ next.0, next.1)

pub stay-Keeps : (t : Translator) → Live t → Keeps t (stay t)
unfolding run stay
stay-Keeps t l = (refl, l)

-- Writes to a block's arguments are not seen.
pub write_block-Keeps :
    (t : Translator) (key : String) (f : Block → Block)
    → ((b : Block) → (f b).index ≡ b.index)
    → ((b : Block) → (f b).closed ≡ b.closed)
    → Live t
    → Keeps t (write_block key f t)
unfolding run write_block
write_block-Keeps t key f same still l = (
  rw (open_indices-adjust key f t.blocks same still) refl,
  (l.0, l.1, Descending-adjust t.next_index key f t.blocks same l.2),
)

pub open_block-Keeps :
    (key : String) (kind : BlockKind) (content : Fields) (t : Translator)
    → Live t
    → Keeps t (open_block key kind content t)
unfolding open_block run stay
open_block-Keeps key kind content t l = elim (Option-cases (lookup key t.blocks)) [
  | inr there ↦ rw (open_block, there.1) (stay-Keeps t l)
  | inl free ↦ rw (open_block, free) (ground arith, (l.0, l.1, (omega arith, free, l.2)))
]

run-delta :
    (n i : ℕ) (o : List ℕ) (content : Fields)
    → has_index i o ≡ true
    → run (record { phase = streaming; next = n; opened = o }) (content_block_delta i content ∷ [])
      ≡ some (record { phase = streaming; next = n; opened = o })
unfolding run step
run-delta n i o content h = ground (arith, h)

run-stop :
    (n i : ℕ) (o : List ℕ)
    → has_index i o ≡ true
    → run (record { phase = streaming; next = n; opened = o }) (content_block_stop i ∷ [])
      ≡ some (record { phase = streaming; next = n; opened = drop_index i o })
unfolding run step
run-stop n i o h = ground (arith, h)

pub send_delta-Keeps :
    (key : String) (content : Fields) (t : Translator) → Live t → Keeps t (send_delta key content t)
unfolding send_delta delta run stay
send_delta-Keeps key content t l = elim (Option-cases (lookup key t.blocks)) [
  | inl free ↦ rw (delta, free) (stay-Keeps t l)
  | inr there ↦ elim (Bool-cases there.0.closed) [
    | inl shut ↦ rw (delta, there.1, shut) (stay-Keeps t l)
    | inr live ↦
        rw (delta, there.1, live)
          (
            run-delta t.next_index there.0.index (open_indices t.blocks) content
                (has_index-open key there.0 t.blocks there.1 live),
            l,
          )
  ]
]

pub close_block-Keeps : (key : String) (t : Translator) → Live t → Keeps t (close_block key t)
unfolding close_block run stay
close_block-Keeps key t l = elim (Option-cases (lookup key t.blocks)) [
  | inl free ↦ rw (close_block, free) (stay-Keeps t l)
  | inr there ↦ elim (Bool-cases there.0.closed) [
    | inl shut ↦ rw (close_block, there.1, shut) (stay-Keeps t l)
    | inr live ↦
        rw (close_block, there.1, live)
          (
            rw (open_indices-close t.next_index key there.0 t.blocks l.2 there.1 live) (
                run-stop t.next_index there.0.index (open_indices t.blocks)
                  (has_index-open key there.0 t.blocks there.1 live)),
            (l.0, l.1, Descending-adjust t.next_index key set_closed t.blocks (λ b. refl) l.2),
          )
  ]
]

pub flush_text-Keeps : (key : String) (t : Translator) → Live t → Keeps t (flush_text key t)
unfolding flush_text
flush_text-Keeps key t l =
    let after = record t { stop_filter = (flush t.stop_filter).0 } in
    if_both (Keeps t) (not (t.stop_sequence == "")) _ _ (stay-Keeps t l) (
      if_both (Keeps t) (is_nil (flush t.stop_filter).1) _ _ (stay-Keeps after l)
        (send_delta-Keeps key _ after l))

pub close_keys-Keeps :
    (ks : List (String × ℕ)) (t : Translator) → Live t → Keeps t (close_keys ks t)
unfolding close_keys
close_keys-Keeps [] t l = stay-Keeps t l
close_keys-Keeps (k ∷ ks) t l =
    and_then-Keeps t (close_block k.0 t) (close_keys ks) (close_block-Keeps k.0 t l)
      (close_keys-Keeps ks)

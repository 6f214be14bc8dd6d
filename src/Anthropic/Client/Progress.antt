-- ===== src/Anthropic/Client/Progress.antt =====
-- A message that has started stays started.
use grokcli2api_go.Prelude.{
  ◌≡◌, refl, ap, subst, Bool, true, false, none, some, List, [], ◌∷◌, arith, if◌then◌else◌,
  Option-cases, inl, inr, not, ◌∙◌,
}
use mathlib.Core.Option.{some-injective}
use grokcli2api_go.Anthropic.Stream.{
  Event, message_start, content_block_start, content_block_delta, content_block_stop, message_delta,
  message_stop, error_event, Translator, Moved,
}
use grokcli2api_go.Anthropic.Client.{Client, is_idle, step, run, view}

-- What an event that needs a test gives, if it gives anything.
tested :
    (b : Bool) (c d : Client)
    → (if b then some c else none) ≡ some d
    → is_idle c.phase ≡ false
    → is_idle d.phase ≡ false
tested true c d h p = subst (λ (x : Client). is_idle x.phase ≡ false) (some-injective c d h) p
tested false c d h p = cc

-- A client that has seen the start of a message does not forget it.
step-begun :
    (c d : Client) (e : Event)
    → step c e ≡ some d
    → is_idle c.phase ≡ false
    → is_idle d.phase ≡ false
unfolding step
step-begun c d (message_start id model n) h b = tested _ _ d h refl
step-begun c d (content_block_start i content) h b = tested _ _ d h b
step-begun c d (content_block_delta i content) h b = tested _ _ d h b
step-begun c d (content_block_stop i) h b = tested _ _ d h b
step-begun c d (message_delta reason sequence n) h b = tested _ _ d h refl
step-begun c d message_stop h b = tested _ _ d h refl
step-begun c d (error_event message) h b =
    subst (λ (x : Client). is_idle x.phase ≡ false) (some-injective c d h) b

run-begun :
    (c d : Client) (es : List Event)
    → run c es ≡ some d
    → is_idle c.phase ≡ false
    → is_idle d.phase ≡ false
unfolding run
run-begun c d [] h b = subst (λ (x : Client). is_idle x.phase ≡ false) (some-injective c d h) b
run-begun c d (e ∷ es) h b = elim (Option-cases (step c e)) [
  | inl bad ↦ (let h = rw (run, bad) at h in cc)
  | inr good ↦ run-begun good.0 d es (rw (run, good.1) at h) (step-begun c good.0 e good.1 b)
]

idle_view : (t : Translator) → t.finished ≡ false → is_idle (view t).phase ≡ not t.started
idle_view t f = rw f (ground arith)

pub kept-started :
    (t : Translator) (m : Moved)
    → t.started ≡ true
    → t.finished ≡ false
    → m.0.finished ≡ false
    → run (view t) m.1 ≡ some (view m.0)
    → m.0.started ≡ true
kept-started t m s f g h = ground (
  arith,
  idle_view t f,
  idle_view m.0 g,
  s,
  run-begun (view t) (view m.0) m.1 h (idle_view t f ∙ ap not s),
)

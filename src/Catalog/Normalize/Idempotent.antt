-- ===== src/Catalog/Normalize/Idempotent.antt =====
-- Normalizing a descriptor twice is normalizing it once, so the catalog may be normalized wherever
-- it is read.
use Prim.Native.Char.{Char}
use grokcli2api_go.Prelude.{
  String, ◌≡◌, ◌∙◌, arith, ◌==◌, eq_iff, if◌then◌else◌, Bool-cases, inl, inr,
}
use mathlib.Core.Path.{ap₂}
use grokcli2api_go.Prelude.Text.{trim_space, trim_space_idem}
use grokcli2api_go.Catalog.{ModelDescriptor}
use grokcli2api_go.Catalog.Normalize.{
  normalize, collect_efforts_idem, normalize_backend_idem, idle_timeout_idem,
  idle_timeout_secs_idem,
}

-- The two identifiers after normalization, from the trimmed texts.
abbrev first_of_two : String → String → String
first_of_two a b = if a == "" then b else a

trim-first_of_two :
    (a b : String)
    → trim_space (first_of_two (trim_space a) (trim_space b))
      ≡ first_of_two (trim_space a) (trim_space b)
trim-first_of_two a b = elim (Bool-cases (trim_space a == "")) [
  | inl e ↦ rw e (trim_space_idem b)
  | inr e ↦ rw e (trim_space_idem a)
]

-- Both identifiers are fixed by a second pass.
id_again :
    (a b : String)
    → let i = first_of_two a b in
      let w = first_of_two b i in (first_of_two i w ≡ i) × (first_of_two w (first_of_two i w) ≡ w)
id_again a b = ground (arith, eq_iff a "", eq_iff b "")

module _ (other : Char → Char) (d : ModelDescriptor) where
  id-normalize : trim_space (normalize other d).id ≡ (normalize other d).id
  unfolding normalize
  id-normalize = trim-first_of_two d.id d.wire_model

  wire-normalize : trim_space (normalize other d).wire_model ≡ (normalize other d).wire_model
  unfolding normalize
  wire-normalize =
      ground
        (arith, id-normalize, trim_space_idem d.wire_model, eq_iff (trim_space d.wire_model) "")

  pair_again :
      first_of_two (normalize other d).id (normalize other d).wire_model ≡ (normalize other d).id
  unfolding normalize
  pair_again = (id_again (trim_space d.id) (trim_space d.wire_model)).0

  wire_again :
      first_of_two (normalize other d).wire_model (normalize other d).id
      ≡ (normalize other d).wire_model
  unfolding normalize
  wire_again = ground (arith, eq_iff (trim_space d.id) "", eq_iff (trim_space d.wire_model) "")

  id-again : (normalize other (normalize other d)).id ≡ (normalize other d).id
  unfolding normalize
  id-again = ap₂ first_of_two id-normalize wire-normalize ∙ pair_again

  wire_model-again :
      (normalize other (normalize other d)).wire_model ≡ (normalize other d).wire_model
  unfolding normalize
  wire_model-again = ap₂ first_of_two wire-normalize id-again ∙ wire_again

  supports-again :
      (normalize other (normalize other d)).supports_reasoning_effort
      ≡ (normalize other d).supports_reasoning_effort
  unfolding normalize
  supports-again = rw (collect_efforts_idem other d.reasoning_efforts) (ground arith)

  -- Normalize is idempotent.
  pub normalize_idem : normalize other (normalize other d) ≡ normalize other d
  unfolding normalize
  normalize_idem = λ i. record d {
    id = id-again i;
    wire_model = wire_model-again i;
    backend = normalize_backend_idem other d.backend i;
    reasoning_efforts = collect_efforts_idem other d.reasoning_efforts i;
    supports_reasoning_effort = supports-again i;
    inference_idle_timeout =
        idle_timeout_idem d.inference_idle_timeout d.inference_idle_timeout_secs i;
    inference_idle_timeout_secs =
        idle_timeout_secs_idem d.inference_idle_timeout d.inference_idle_timeout_secs i;
  }

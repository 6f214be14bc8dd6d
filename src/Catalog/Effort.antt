-- ===== src/Catalog/Effort.antt =====
-- NormalizeReasoningEffort: what a caller's reasoning effort becomes on the wire.
use Prim.Native.Char.{Char}
use grokcli2api_go.Prelude.{
  String, ◌≡◌, ◌≢◌, refl, ◌⊎◌, inl, inr, true, not, ◌||◌, List, [], ◌∷◌, arith, ◌==◌, eq_iff,
  if◌then◌else◌, has, is_nil,
}
use grokcli2api_go.Prelude.Text.{trim_space, to_lower}
use grokcli2api_go.Catalog.{ModelDescriptor}
use grokcli2api_go.Catalog.Normalize.{normalize, is_canonical_reasoning_effort, canonical-Settled}
use grokcli2api_go.Catalog.Normalize.Idempotent.{normalize_idem}

-- The loop over descriptor.ReasoningEfforts and the return after it.
find_supported : String → List String → String
find_supported effort [] = "low"
find_supported effort (supported ∷ rest) =
    if supported == effort then effort else find_supported effort rest

-- The tests after the descriptor is normalized.
effort_of_descriptor : String → ModelDescriptor → String
unfolding find_supported
effort_of_descriptor effort d =
    if not d.supports_reasoning_effort
    then "low"
    else if is_nil d.reasoning_efforts
    then effort
    else find_supported effort d.reasoning_efforts

unfoldable pub normalize_reasoning_effort : (Char → Char) → String → ModelDescriptor → String
unfolding effort_of_descriptor
normalize_reasoning_effort other input descriptor =
    let effort = to_lower other (trim_space input) in
    if effort == "none" || not (is_canonical_reasoning_effort effort)
    then "low"
    else effort_of_descriptor effort (normalize other descriptor)

find_supported_lem :
    (e : String) (l : List String) → find_supported e l ≡ (if has e l then e else "low")
unfolding find_supported has
find_supported_lem e [] = refl
find_supported_lem e (x ∷ xs) = ground (arith, find_supported_lem e xs)

-- An effort that the descriptor of an account accepts.
abbrev pub Accepts : ModelDescriptor → String → Type 0
Accepts d e =
    (d.supports_reasoning_effort ≡ true)
    × ((d.reasoning_efforts ≡ []) ⊎ (has e d.reasoning_efforts ≡ true))

effort_of_descriptor_cases :
    (e : String) (d : ModelDescriptor)
    → (effort_of_descriptor e d ≡ "low") ⊎ ((effort_of_descriptor e d ≡ e) × Accepts d e)
unfolding effort_of_descriptor
effort_of_descriptor_cases e d = ground (arith, find_supported_lem e d.reasoning_efforts)

accepted_effort : (e : String) (d : ModelDescriptor) → Accepts d e → effort_of_descriptor e d ≡ e
unfolding effort_of_descriptor
accepted_effort e d a = ground (arith, find_supported_lem e d.reasoning_efforts)

low_kept : (d : ModelDescriptor) → effort_of_descriptor "low" d ≡ "low"
unfolding effort_of_descriptor
low_kept d = ground (arith, find_supported_lem "low" d.reasoning_efforts)

module _ (other : Char → Char) (input : String) (d : ModelDescriptor) where
  -- The wire value is "low", or it is the caller's own effort in lower case and without surrounding
  -- space, a canonical one other than "none" that the account's normalized descriptor accepts.
  pub normalize_reasoning_effort_cases :
      let r = normalize_reasoning_effort other input d in
      (r ≡ "low")
      ⊎ ((r ≡ to_lower other (trim_space input))
          × (is_canonical_reasoning_effort r ≡ true)
          × (r ≢ "none")
          × Accepts (normalize other d) r)
  unfolding normalize_reasoning_effort
  normalize_reasoning_effort_cases = ground (
    arith,
    effort_of_descriptor_cases (to_lower other (trim_space input)) (normalize other d),
    eq_iff (to_lower other (trim_space input)) "none",
  )

  -- A canonical effort other than "none" that the normalized descriptor accepts is never replaced.
  pub accepted_effort_kept :
      let e = to_lower other (trim_space input) in
      is_canonical_reasoning_effort e ≡ true
      → e ≢ "none"
      → Accepts (normalize other d) e
      → normalize_reasoning_effort other input d ≡ e
  unfolding normalize_reasoning_effort
  accepted_effort_kept c n a = ground (
    arith,
    accepted_effort (to_lower other (trim_space input)) (normalize other d),
    eq_iff (to_lower other (trim_space input)) "none",
  )

low_again :
    (other : Char → Char) (d : ModelDescriptor) → normalize_reasoning_effort other "low" d ≡ "low"
unfolding normalize_reasoning_effort is_canonical_reasoning_effort has to_lower trim_space
low_again other d = low_kept (normalize other d)

sent_again :
    (other : Char → Char) (r : String) (d : ModelDescriptor)
    → is_canonical_reasoning_effort r ≡ true
    → r ≢ "none"
    → Accepts (normalize other d) r
    → normalize_reasoning_effort other r d ≡ r
unfolding normalize_reasoning_effort
sent_again other r d c n a =
    rw (canonical-Settled other r c)
      (ground (arith, accepted_effort r (normalize other d), eq_iff r "none"))

-- What is sent for an account is what would be sent for its normalized descriptor, and sending it
-- again changes nothing.
pub normalize_reasoning_effort_idem :
    (other : Char → Char) (input : String) (d : ModelDescriptor)
    → let r = normalize_reasoning_effort other input d in
      (normalize_reasoning_effort other input (normalize other d) ≡ r)
      × (normalize_reasoning_effort other r d ≡ r)
normalize_reasoning_effort_idem other input d = (
  unfold normalize_reasoning_effort in rw normalize_idem,
  elim (normalize_reasoning_effort_cases other input d) [
    | inl low ↦ rw low (low_again other d)
    | inr (e, c, n, a) ↦ sent_again other (normalize_reasoning_effort other input d) d c n a
  ],
)

-- ===== src/Catalog/Normalize.antt =====
-- ModelDescriptor.Normalize. `other` is the part of Unicode's lower-case table above ASCII.
pub mod Idempotent
use Prim.Native.Char.{Char}
use grokcli2api_go.Prelude.{
  ℕ, ◌*◌, ◌/◌, ◌^◌, String, ◌≡◌, refl, ap, Bool, true, false, List, [], ◌∷◌, arith, ◌==◌, eq_iff,
  if◌then◌else◌, ltb, has, All, All-has, is_nil, Bool-cases, inl, inr,
}
use grokcli2api_go.Prelude.Int.{ℤ, pos, negsuc, is_positive, to_int64}
use grokcli2api_go.Prelude.Text.{trim_space, to_lower, trim_space_idem}
use grokcli2api_go.Catalog.{
  ModelDescriptor, backend_chat_completions, backend_responses, backend_messages,
}

abbrev pub canonical_efforts : List String
canonical_efforts = "none" ∷ "minimal" ∷ "low" ∷ "medium" ∷ "high" ∷ "xhigh" ∷ []

unfoldable pub is_canonical_reasoning_effort : String → Bool
is_canonical_reasoning_effort value = has value canonical_efforts

abbrev pub backends : List String
backends = backend_chat_completions ∷ backend_responses ∷ backend_messages ∷ []

-- time.Second
abbrev pub second : ℕ
second = 1000000000

module _ (other : Char → Char) where
  unfoldable pub normalize_backend : String → String
  normalize_backend raw =
      let b = to_lower other (trim_space raw) in
      if has b backends then b else backend_chat_completions

  -- The loop over d.ReasoningEfforts; `seen` holds the keys of the map of that name.
  unfoldable pub collect_efforts : List String → List String → List String
  unfolding is_canonical_reasoning_effort
  collect_efforts seen [] = []
  collect_efforts seen (raw ∷ rest) =
      let effort = to_lower other (trim_space raw) in
      let skipped = collect_efforts seen rest in
      let taken = effort ∷ collect_efforts (effort ∷ seen) rest in
      if is_canonical_reasoning_effort effort
      then if has effort seen then skipped else taken
      else skipped

-- The duration that stands for a number of seconds, with Go's wrap-around.
abbrev seconds_duration : ℕ → ℤ
seconds_duration secs = to_int64 (secs * second)

-- uint64(d / time.Second) of a positive duration
abbrev duration_seconds : ℤ → ℕ
duration_seconds (pos n) = n / second
duration_seconds (negsuc n) = 0

unfoldable pub idle_timeout : ℤ → ℕ → ℤ
idle_timeout timeout secs =
    if is_positive timeout then timeout else if ltb 0 secs then seconds_duration secs else timeout

unfoldable pub idle_timeout_secs : ℤ → ℕ → ℕ
idle_timeout_secs timeout secs =
    if ltb 0 secs then secs else if is_positive timeout then duration_seconds timeout else secs

unfoldable pub normalize : (Char → Char) → ModelDescriptor → ModelDescriptor
unfolding normalize_backend collect_efforts idle_timeout idle_timeout_secs
normalize other d =
    let trimmed_id = trim_space d.id in
    let trimmed_wire = trim_space d.wire_model in
    let new_id = if trimmed_id == "" then trimmed_wire else trimmed_id in
    let new_wire = if trimmed_wire == "" then new_id else trimmed_wire in
    let efforts = collect_efforts other [] d.reasoning_efforts in
    let timeout = idle_timeout d.inference_idle_timeout d.inference_idle_timeout_secs in
    record d {
      id = new_id;
      wire_model = new_wire;
      backend = normalize_backend other d.backend;
      reasoning_efforts = efforts;
      supports_reasoning_effort = if is_nil efforts then d.supports_reasoning_effort else true;
      inference_idle_timeout = timeout;
      inference_idle_timeout_secs = idle_timeout_secs timeout d.inference_idle_timeout_secs;
    }

-- What the two text steps leave alone.
abbrev pub Settled : (Char → Char) → String → Type 0
Settled other s = to_lower other (trim_space s) ≡ s

pub canonical-Settled :
    (other : Char → Char) (s : String) → is_canonical_reasoning_effort s ≡ true → Settled other s
unfolding is_canonical_reasoning_effort to_lower trim_space
canonical-Settled other s h =
    All-has (Settled other) s canonical_efforts (refl, (refl, (refl, (refl, (refl, (refl, tt)))))) h

backends-Settled : (other : Char → Char) (s : String) → has s backends ≡ true → Settled other s
unfolding to_lower trim_space
backends-Settled other s h = All-has (Settled other) s backends (refl, (refl, (refl, tt))) h

abbrev known_or_default : String → String
known_or_default b = if has b backends then b else backend_chat_completions

known_or_default-known : (b : String) → has (known_or_default b) backends ≡ true
known_or_default-known b = elim (Bool-cases (has b backends)) [
  | inl known ↦ rw known known
  | inr unknown ↦ rw unknown (unfold has in refl)
]

-- A normalized backend is one of the three that the program can render.
pub normalize_backend-known :
    (other : Char → Char) (raw : String) → has (normalize_backend other raw) backends ≡ true
unfolding normalize_backend
normalize_backend-known other raw = known_or_default-known (to_lower other (trim_space raw))

normalize_backend_fixed :
    (other : Char → Char) (b : String) → has b backends ≡ true → normalize_backend other b ≡ b
unfolding normalize_backend
normalize_backend_fixed other b h = rw (backends-Settled other b h) (rw h)

pub normalize_backend_idem :
    (other : Char → Char) (raw : String)
    → normalize_backend other (normalize_backend other raw) ≡ normalize_backend other raw
normalize_backend_idem other raw =
    normalize_backend_fixed other _ (normalize_backend-known other raw)

-- Canonical texts, none of them in `seen` and none twice.
abbrev pub Fresh : List String → List String → Type 0
Fresh seen [] = Unit
Fresh seen (x ∷ xs) =
    (is_canonical_reasoning_effort x ≡ true) × (has x seen ≡ false) × Fresh (x ∷ seen) xs

pub collect_efforts-Fresh :
    (other : Char → Char) (seen raw : List String) → Fresh seen (collect_efforts other seen raw)
unfolding collect_efforts
collect_efforts-Fresh other seen [] = tt
collect_efforts-Fresh other seen (x ∷ xs) = ground (
  arith,
  collect_efforts-Fresh other seen xs,
  collect_efforts-Fresh other (to_lower other (trim_space x) ∷ seen) xs,
)

collect_efforts-Fresh_from :
    (other : Char → Char) (seen xs : List String)
    → Fresh seen xs
    → collect_efforts other seen xs ≡ xs
unfolding collect_efforts
collect_efforts-Fresh_from other seen [] f = refl
collect_efforts-Fresh_from other seen (x ∷ xs) f =
    rw (canonical-Settled other x f.0)
      (rw (f.0, f.1) (ap (◌∷◌ x) (collect_efforts-Fresh_from other (x ∷ seen) xs f.2)))

pub collect_efforts_idem :
    (other : Char → Char) (raw : List String)
    → collect_efforts other [] (collect_efforts other [] raw) ≡ collect_efforts other [] raw
collect_efforts_idem other raw =
    collect_efforts-Fresh_from other [] _ (collect_efforts-Fresh other [] raw)

pub idle_timeout_idem :
    (t : ℤ) (s : ℕ)
    → idle_timeout (idle_timeout t s) (idle_timeout_secs (idle_timeout t s) s) ≡ idle_timeout t s
unfolding idle_timeout idle_timeout_secs
idle_timeout_idem t s = ground arith

pub idle_timeout_secs_idem :
    (t : ℤ) (s : ℕ)
    → let t' = idle_timeout t s in
      let s' = idle_timeout_secs t' s in idle_timeout_secs (idle_timeout t' s') s' ≡ s'
unfolding idle_timeout idle_timeout_secs
idle_timeout_secs_idem t s = ground arith

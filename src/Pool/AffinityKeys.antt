-- ===== src/Pool/AffinityKeys.antt =====
-- The keys under which continuity is remembered: tenant, affinity and model, joined by NUL.
use Prim.Native.Char.{Char, code}
use mathlib.Core.Path.{ap₂}
use grokcli2api_go.Prelude.{
  String, ◌≡◌, ◌≢◌, refl, ap, sym, ◌∙◌, arith, ◌==◌, eq_iff, if◌then◌else◌,
}
use grokcli2api_go.Pool.{Affinity}

-- Go's + on texts
infixr 60 ◌then_text◌
unfoldable pub ◌then_text◌ : String → String → String
String.[] then_text t = t
(String.◌∷◌ c s) then_text t = String.◌∷◌ c (s then_text t)

abbrev pub nul : String
nul = "\0"

-- affinityModelKey, with modelAffinityKey written out.
unfoldable pub affinity_model_key : Affinity → String → String
unfolding ◌then_text◌
affinity_model_key affinity model =
    if affinity.key == ""
    then ""
    else let tenant = if affinity.tenant == "" then "public" else affinity.tenant in
      tenant then_text nul then_text affinity.key then_text nul then_text model

abbrev pub NulFree : String → Type 0
NulFree String.[] = Unit
NulFree (String.◌∷◌ c s) = (code c ≢ 0) × NulFree s

cons_injective : (c d : Char) (s t : String) → String.◌∷◌ c s ≡ String.◌∷◌ d t → (c ≡ d) × (s ≡ t)
cons_injective c d s t h = (cc, cc)

-- Up to the first NUL, a text is determined.
pub before_nul :
    (a b x y : String)
    → NulFree a
    → NulFree b
    → a then_text nul then_text x ≡ b then_text nul then_text y
    → (a ≡ b) × (x ≡ y)
unfolding ◌then_text◌
before_nul String.[] String.[] x y fa fb h = (refl, cc)
before_nul String.[] (String.◌∷◌ d b) x y fa fb h =
    absurd (fb.0 (sym (ap code (cons_injective _ d _ _ h).0)))
before_nul (String.◌∷◌ c a) String.[] x y fa fb h =
    absurd (fa.0 (ap code (cons_injective c _ _ _ h).0))
before_nul (String.◌∷◌ c a) (String.◌∷◌ d b) x y fa fb h =
    let same = cons_injective c d _ _ h in
    let rest = before_nul a b x y fa.1 fb.1 same.1 in (ap₂ String.◌∷◌ same.0 rest.0, rest.1)

-- The namespace of a request: its tenant, or the public one.
abbrev pub namespace : Affinity → String
namespace affinity = if affinity.tenant == "" then "public" else affinity.tenant

joined :
    (a : Affinity) (m : String)
    → a.key ≢ ""
    → affinity_model_key a m ≡ namespace a then_text nul then_text a.key then_text nul then_text m
unfolding affinity_model_key
joined a m k = ground (arith, eq_iff a.key "")

-- Two requests with an affinity that meet at one key are of one namespace, when no namespace holds
-- a NUL, and the rest of the key is the same too.
pub affinity_model_key-namespace :
    (a b : Affinity) (m n : String)
    → NulFree (namespace a)
    → NulFree (namespace b)
    → a.key ≢ ""
    → b.key ≢ ""
    → affinity_model_key a m ≡ affinity_model_key b n
    → (namespace a ≡ namespace b)
      × (a.key then_text nul then_text m ≡ b.key then_text nul then_text n)
affinity_model_key-namespace a b m n fa fb ka kb h =
    before_nul (namespace a) (namespace b) _ _ fa fb (sym (joined a m ka) ∙ h ∙ joined b n kb)

-- Two requests with an affinity that meet at one key are of one namespace, one affinity and one
-- model, when no namespace and no affinity holds a NUL.
pub affinity_model_key_injective :
    (a b : Affinity) (m n : String)
    → NulFree (namespace a)
    → NulFree (namespace b)
    → a.key ≢ ""
    → b.key ≢ ""
    → NulFree a.key
    → NulFree b.key
    → affinity_model_key a m ≡ affinity_model_key b n
    → (namespace a ≡ namespace b) × (a.key ≡ b.key) × (m ≡ n)
affinity_model_key_injective a b m n fa fb ka kb ga gb h =
    let split = affinity_model_key-namespace a b m n fa fb ka kb h in
    let rest = before_nul a.key b.key m n ga gb split.1 in (split.0, rest.0, rest.1)

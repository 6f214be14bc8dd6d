-- ===== src/Server/Execution/Cleaned.antt =====
-- A plan without the opaque state that the store does not know.
use grokcli2api_go.Prelude.{
  String, ◌≡◌, refl, Bool, true, false, Option, none, some, List, [], ◌∷◌, ◌++◌, arith,
  if◌then◌else◌, if_both, with_option, has, has-append, All, inl, inr,
}
use grokcli2api_go.Catalog.{ModelDescriptor}
use grokcli2api_go.Catalog.Aggregate.{AggregatedModel}
use grokcli2api_go.Continuity.{Binding}
use grokcli2api_go.Server.Execution.{
  Attempt, StateHandle, Planner, state_unavailable, render_failed, handle_key, is_opaque,
  rendered_handles, render_for_binding, preserved_handles, backends_keys, models_keys,
  rendered_or_none,
}
use grokcli2api_go.Server.Execution.Prepare.{cleaned_plan}

module _ {Plan : Type 0} (planner : Planner Plan) where
  -- What the documentation of WithoutOpaqueState says: of a plan without some opaque handles, no request
  -- carries one of them.
  abbrev pub Cleans : Type 0
  Cleans =
      (plan : Plan) (unknown : List StateHandle) (descriptor : ModelDescriptor) (a : Attempt)
      → All (λ h. is_opaque h ≡ true) unknown
      → planner.render (planner.without_opaque_state plan unknown) descriptor ≡ some a
      → All (λ h. has (handle_key h) (rendered_handles planner a) ≡ false) unknown

  -- None of the handles is among the keys.
  abbrev Absent : List StateHandle → List String → Type 0
  Absent handles keys = All (λ h. has (handle_key h) keys ≡ false) handles

  Absent-empty : (handles : List StateHandle) → Absent handles []
  unfolding has
  Absent-empty [] = tt
  Absent-empty (h ∷ handles) = (refl, Absent-empty handles)

  Absent-both :
      (handles : List StateHandle) (xs ys : List String)
      → Absent handles xs
      → Absent handles ys
      → Absent handles (xs ++ ys)
  Absent-both [] xs ys h k = tt
  Absent-both (x ∷ handles) xs ys h k =
      (ground (arith, h.0, k.0, has-append (handle_key x) xs ys), Absent-both handles xs ys h.1 k.1)

  Absent-sent :
      (handles : List StateHandle) (o : Option Attempt)
      → ((a : Attempt) → o ≡ some a → Absent handles (rendered_handles planner a))
      → Absent handles (rendered_or_none planner o)
  Absent-sent handles none h = Absent-empty handles
  Absent-sent handles (some a) h = h a refl

  rendered_attempt :
      (differs : Bool) (o : Option Attempt) (a : Attempt)
      → (if differs then inl state_unavailable else with_option o (inl render_failed) inr) ≡ inr a
      → o ≡ some a
  rendered_attempt true o a e = cc
  rendered_attempt false none a e = cc
  rendered_attempt false (some x) a e = cc

  module _ (cleans : Cleans) where
    cleaned_plan_drops :
        (plan : Plan) (unknown : List StateHandle) (descriptor : ModelDescriptor) (a : Attempt)
        → All (λ h. is_opaque h ≡ true) unknown
        → planner.render (cleaned_plan planner plan unknown) descriptor ≡ some a
        → All (λ h. has (handle_key h) (rendered_handles planner a) ≡ false) unknown
    cleaned_plan_drops plan [] descriptor a o e = tt
    cleaned_plan_drops plan (h ∷ unknown) descriptor a o e =
        cleans plan (h ∷ unknown) descriptor a o e

    pub bound_drops :
        (plan : Plan) (unknown : List StateHandle) (b : Binding) (a : Attempt)
        → All (λ h. is_opaque h ≡ true) unknown
        → render_for_binding planner (cleaned_plan planner plan unknown) b ≡ inr a
        → All (λ h. has (handle_key h) (rendered_handles planner a) ≡ false) unknown
    unfolding render_for_binding
    bound_drops plan unknown b a o e =
        cleaned_plan_drops plan unknown _ a o (rendered_attempt _ _ a e)

    rendered_drops :
        (plan : Plan) (unknown : List StateHandle) (descriptor : ModelDescriptor)
        → All (λ h. is_opaque h ≡ true) unknown
        → Absent unknown (
            rendered_or_none planner
              (planner.render (cleaned_plan planner plan unknown) descriptor))
    rendered_drops plan unknown descriptor o =
        Absent-sent unknown (planner.render (cleaned_plan planner plan unknown) descriptor)
          (λ a e. cleaned_plan_drops plan unknown descriptor a o e)

    backends_drops :
        (plan : Plan) (unknown : List StateHandle) (m : AggregatedModel) (backends : List String)
        → All (λ h. is_opaque h ≡ true) unknown
        → Absent unknown (backends_keys planner (cleaned_plan planner plan unknown) m backends)
    backends_drops plan unknown m [] o = Absent-empty unknown
    backends_drops plan unknown m (backend ∷ backends) o =
        Absent-both unknown _ _ (rendered_drops plan unknown _ o)
          (backends_drops plan unknown m backends o)

    models_drops :
        (plan : Plan) (unknown : List StateHandle) (models : List AggregatedModel)
        → All (λ h. is_opaque h ≡ true) unknown
        → Absent unknown (models_keys planner (cleaned_plan planner plan unknown) models)
    models_drops plan unknown [] o = Absent-empty unknown
    models_drops plan unknown (m ∷ models) o =
        Absent-both unknown _ _
          (if_both (Absent unknown) _ _ _ (backends_drops plan unknown m m.api_backends o)
            (Absent-empty unknown))
          (models_drops plan unknown models o)

    pub preserved_drops :
        (plan : Plan) (unknown : List StateHandle)
        → All (λ h. is_opaque h ≡ true) unknown
        → Absent unknown (preserved_handles planner (cleaned_plan planner plan unknown))
    unfolding preserved_handles
    preserved_drops plan unknown o = if_both (Absent unknown) _ [] _ (Absent-empty unknown) (
        Absent-both unknown _ _ (models_drops plan unknown planner.aggregated_models o) (
          if_both (Absent unknown) _ _ [] (rendered_drops plan unknown _ o) (Absent-empty unknown)))

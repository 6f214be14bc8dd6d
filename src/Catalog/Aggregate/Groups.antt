-- ===== src/Catalog/Aggregate/Groups.antt =====
-- The grouping by model: each group holds the visible descriptors of its model, in their order.
use Prim.Native.Char.{Char}
use grokcli2api_go.Prelude.{
  String, ◌≡◌, refl, sym, ap, ◌∙◌, Bool, not, ◌&&◌, ◌||◌, Option, none, some, List, [], ◌∷◌, ◌++◌,
  map, arith, ◌==◌, eq_iff, if◌then◌else◌, has, is_nil, select, All, All-imp, Bool-cases, inl, inr,
}
use mathlib.Core.List.{append_assoc, append-nil}
use grokcli2api_go.Prelude.Map.{
  Map, lookup, keys, Distinct, Distinct-insert, lookup-insert, entries-lookup, has-keys, found,
}
use grokcli2api_go.Prelude.Sort.{All-sort_by, has-sort_by}
use grokcli2api_go.Catalog.{ModelDescriptor}
use grokcli2api_go.Catalog.Normalize.{normalize}
use grokcli2api_go.Catalog.Aggregate.{
  AggregatedModel, aggregate_group, add_to_group, group_all, aggregate, or_nil,
}

-- The normalized descriptors of one model that are neither hidden nor without a name.
unfoldable pub is_candidate : String → ModelDescriptor → Bool
is_candidate id d = not (d.id == "" || d.hidden) && (d.id == id)

abbrev pub candidates : (Char → Char) → String → List ModelDescriptor → List ModelDescriptor
candidates other id ds = select (is_candidate id) (map (normalize other) ds)

abbrev join : Option (List ModelDescriptor) → List ModelDescriptor → Option (List ModelDescriptor)
join none [] = none
join none (x ∷ xs) = some (x ∷ xs)
join (some ys) xs = some (ys ++ xs)

join-cons :
    (o : Option (List ModelDescriptor)) (d : ModelDescriptor) (ds : List ModelDescriptor)
    → join (some (or_nil o ++ d ∷ [])) ds ≡ join o (d ∷ ds)
join-cons none d ds = refl
join-cons (some ys) d ds = ap some (append_assoc ys (d ∷ []) ds)

join-nil : (o : Option (List ModelDescriptor)) → join o [] ≡ o
join-nil none = refl
join-nil (some ys) = ap some (append-nil ys)

-- What a group found in the end holds, and that it is missing only without candidates.
join-none : (xs ys : List ModelDescriptor) → join none xs ≡ some ys → xs ≡ ys
join-none [] ys h = cc
join-none (x ∷ xs) ys h = cc

found-join : (xs : List ModelDescriptor) → found (join none xs) ≡ not (is_nil xs)
found-join [] = refl
found-join (x ∷ xs) = refl

lookup-add_to_group :
    (id : String) (d : ModelDescriptor) (g : Map (List ModelDescriptor))
    → lookup id (add_to_group d g)
      ≡ (if is_candidate id d then some (or_nil (lookup id g) ++ d ∷ []) else lookup id g)
unfolding add_to_group is_candidate
lookup-add_to_group id d g =
    ground (arith, lookup-insert d.id id (or_nil (lookup d.id g) ++ d ∷ []) g, eq_iff d.id id)

lookup-group_all :
    (other : Char → Char) (id : String) (g : Map (List ModelDescriptor)) (ds : List ModelDescriptor)
    → lookup id (group_all other g ds) ≡ join (lookup id g) (candidates other id ds)
unfolding group_all
lookup-group_all other id g [] = sym (join-nil (lookup id g))
lookup-group_all other id g (d ∷ ds) =
    let new = normalize other d in
    rw (lookup-group_all other id (add_to_group new g) ds, lookup-add_to_group id new g)
      (elim (Bool-cases (is_candidate id new)) [
        | inl c ↦ rw c (join-cons (lookup id g) new (candidates other id ds))
        | inr c ↦ rw c
      ])

Distinct-add_to_group :
    (d : ModelDescriptor) (g : Map (List ModelDescriptor))
    → Distinct g
    → Distinct (add_to_group d g)
unfolding add_to_group
Distinct-add_to_group d g h =
    ground (arith, Distinct-insert d.id (or_nil (lookup d.id g) ++ d ∷ []) g h)

Distinct-group_all :
    (other : Char → Char) (g : Map (List ModelDescriptor)) (ds : List ModelDescriptor)
    → Distinct g
    → Distinct (group_all other g ds)
unfolding group_all
Distinct-group_all other g [] h = h
Distinct-group_all other g (d ∷ ds) h =
    Distinct-group_all other (add_to_group (normalize other d) g) ds
      (Distinct-add_to_group (normalize other d) g h)

abbrev of_group : String × List ModelDescriptor → AggregatedModel
of_group group = aggregate_group group.0 group.1

ids_of_groups : (g : Map (List ModelDescriptor)) → map (λ item. item.id) (map of_group g) ≡ keys g
unfolding aggregate_group
ids_of_groups [] = refl
ids_of_groups ((k, v) ∷ g) = ap (◌∷◌ k) (ids_of_groups g)

module _ (other : Char → Char) (ds : List ModelDescriptor) where
  All-map_groups :
      (g : Map (List ModelDescriptor))
      → All (λ e. e.1 ≡ candidates other e.0 ds) g
      → All (λ item. item ≡ aggregate_group item.id (candidates other item.id ds)) (map of_group g)
  unfolding aggregate_group
  All-map_groups [] h = tt
  All-map_groups ((k, v) ∷ g) h = (ap (aggregate_group k) h.0, All-map_groups g h.1)

  groups : Map (List ModelDescriptor)
  groups = group_all other [] ds

  lookup-groups : (id : String) → lookup id groups ≡ join none (candidates other id ds)
  unfolding groups lookup
  lookup-groups id = lookup-group_all other id [] ds

  groups_are_candidates : All (λ e. e.1 ≡ candidates other e.0 ds) groups
  unfolding groups
  groups_are_candidates =
      All-imp (λ e h. sym (join-none (candidates other e.0 ds) e.1 (sym (lookup-groups e.0) ∙ h)))
        groups (entries-lookup groups (Distinct-group_all other [] ds tt))

  -- Every entry of the public list is the aggregate of the visible descriptors of its model, over
  -- all accounts and in their order; and a model is listed exactly when it has such a descriptor.
  pub aggregate_exact :
      (id : String)
      → All
          (λ item. item ≡ aggregate_group item.id (candidates other item.id ds))
          (aggregate other ds)
        × (has id (map (λ item. item.id) (aggregate other ds))
            ≡ not (is_nil (candidates other id ds)))
  unfolding aggregate groups
  aggregate_exact id = (
    All-sort_by (λ item. item.id) _ (map of_group groups)
        (All-map_groups groups groups_are_candidates),
    has-sort_by (λ item. item.id) id (map of_group groups)
        ∙ ap (has id) (ids_of_groups groups)
        ∙ has-keys id groups
        ∙ ap found (lookup-groups id)
        ∙ found-join (candidates other id ds),
  )

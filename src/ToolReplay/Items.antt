-- ===== src/ToolReplay/Items.antt =====
-- The shape of what normalizeReplayItems keeps.
use mathlib.Core.Option.{some-injective}
use grokcli2api_go.Prelude.{
  subst, String, ◌≡◌, ◌≢◌, refl, ◌⊎◌, inl, inr, Bool, true, false, ◌||◌, Option, none, some, List,
  [], ◌∷◌, arith, ◌==◌, eq_iff, if◌then◌else◌, All, Bool-cases,
}
use grokcli2api_go.Prelude.Map.{lookup, lookup-insert}
use grokcli2api_go.ToolReplay.{
  Value, null, text, opaque, Item, non_empty_text, trimmed_field, with_field,
  normalize_function_call, normalize_input, normalize_custom_tool_call, normalize_item,
  normalize_replay_items,
}

-- A tool call that can be replayed: one of the two kinds, with a call and a name.
abbrev pub IsToolCall : Item → Type 0
IsToolCall item =
    ((lookup "type" item ≡ some (text "function_call"))
      ⊎ (lookup "type" item ≡ some (text "custom_tool_call")))
    × (non_empty_text (lookup "call_id" item) ≢ "")
    × (non_empty_text (lookup "name" item) ≢ "")

lookup-with_field :
    (key value other : String) (item : Item)
    → (key == other) ≡ false
    → lookup other (with_field key value item) ≡ lookup other item
unfolding with_field
lookup-with_field key value other item n =
    ground (arith, n, lookup-insert key other (text value) item)

IsToolCall-with_field :
    (key value : String) (item : Item)
    → (key == "type") ≡ false
    → (key == "call_id") ≡ false
    → (key == "name") ≡ false
    → IsToolCall item
    → IsToolCall (with_field key value item)
IsToolCall-with_field key value item t c n w =
    rw
      (
        lookup-with_field key value "type" item t,
        lookup-with_field key value "call_id" item c,
        lookup-with_field key value "name" item n,
      )
      w

no_item : {n : Item} → (none ≡ some n) → ⊥
no_item e = cc

-- The result of a test that refuses, when there is one.
accepted_item :
    (x n : Item) (refuses : Bool)
    → (if refuses then none else some x) ≡ some n
    → ((refuses ≡ false) → IsToolCall x)
    → IsToolCall n
accepted_item x n true e w = absurd (no_item e)
accepted_item x n false e w = subst IsToolCall {x = x} {y = n} (some-injective x n e) (w refl)

both_given : (a b : String) → ((a == "" || b == "") ≡ false) → (a ≢ "") × (b ≢ "")
both_given a b h = (λ e. ground (arith, h, e, eq_iff a ""), λ e. ground (arith, h, e, eq_iff b ""))

normalize_call-IsToolCall :
    (item : Item) (o : Option Value) (n : Item)
    → normalize_function_call item o ≡ some n
    → IsToolCall n
unfolding lookup
normalize_call-IsToolCall item none n h = absurd (no_item h)
normalize_call-IsToolCall item (some null) n h = absurd (no_item h)
normalize_call-IsToolCall item (some (opaque i)) n h = absurd (no_item h)
normalize_call-IsToolCall item (some (text arguments)) n h =
    let call_id = trimmed_field "call_id" item in
    let name = trimmed_field "name" item in
    accepted_item _ n (call_id == "" || name == "") h (λ g.
      IsToolCall-with_field "namespace" _ _ refl refl refl (
        IsToolCall-with_field "id" _ _ refl refl refl
          (let given = both_given call_id name g in (inl refl, given.0, given.1))))

normalize_input-IsToolCall :
    (item : Item) (input : Value) (n : Item) → normalize_input item input ≡ some n → IsToolCall n
unfolding lookup
normalize_input-IsToolCall item null n h = absurd (no_item h)
normalize_input-IsToolCall item (text i) n h =
    let call_id = trimmed_field "call_id" item in
    let name = trimmed_field "name" item in
    accepted_item _ n (call_id == "" || name == "") h (λ g.
      IsToolCall-with_field "namespace" _ _ refl refl refl (
        IsToolCall-with_field "status" _ _ refl refl refl (
          IsToolCall-with_field "id" _ _ refl refl refl
            (let given = both_given call_id name g in (inr refl, given.0, given.1)))))
normalize_input-IsToolCall item (opaque i) n h =
    let call_id = trimmed_field "call_id" item in
    let name = trimmed_field "name" item in
    accepted_item _ n (call_id == "" || name == "") h (λ g.
      IsToolCall-with_field "namespace" _ _ refl refl refl (
        IsToolCall-with_field "status" _ _ refl refl refl (
          IsToolCall-with_field "id" _ _ refl refl refl
            (let given = both_given call_id name g in (inr refl, given.0, given.1)))))

given_input-IsToolCall :
    (item : Item) (o : Option Value) (n : Item)
    → normalize_custom_tool_call item o ≡ some n
    → IsToolCall n
given_input-IsToolCall item none n h = absurd (no_item h)
given_input-IsToolCall item (some input) n h = normalize_input-IsToolCall item input n h

normalize_item-IsToolCall : (item n : Item) → normalize_item item ≡ some n → IsToolCall n
unfolding normalize_item
normalize_item-IsToolCall item n h =
    elim (Bool-cases (non_empty_text (lookup "type" item) == "function_call")) [
      | inl f ↦ normalize_call-IsToolCall item (lookup "arguments" item) n (rw f at h)
      | inr f ↦ elim (Bool-cases (non_empty_text (lookup "type" item) == "custom_tool_call")) [
        | inl c ↦ given_input-IsToolCall item (lookup "input" item) n (rw (f, c) at h)
        | inr c ↦ absurd (no_item {n = n} (rw (f, c) at h))
      ]
    ]

kept_items :
    (o : Option Item) (rest : List Item)
    → ((n : Item) → o ≡ some n → IsToolCall n)
    → All IsToolCall rest
    → All IsToolCall (elim o as (λ x. List Item) [ none ↦ rest | some n ↦ n ∷ rest ])
kept_items none rest w h = h
kept_items (some n) rest w h = (w n refl, h)

-- Whatever a client or an upstream sends, each item that is kept is a function call or a custom tool
-- call, with a call id and a name that are not empty.
pub normalize_replay_items-IsToolCall :
    (items : List Item) → All IsToolCall (normalize_replay_items items)
unfolding normalize_replay_items
normalize_replay_items-IsToolCall [] = tt
normalize_replay_items-IsToolCall (item ∷ items) =
    kept_items (normalize_item item) (normalize_replay_items items)
      (λ n e. normalize_item-IsToolCall item n e) (normalize_replay_items-IsToolCall items)

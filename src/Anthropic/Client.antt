-- ===== src/Anthropic/Client.antt =====
-- What a client of the Messages stream accepts, against which the translator of
-- internal/anthropic/stream.go is checked: one message_start, blocks with the indices 0, 1, 2, ... that
-- are each started before their deltas and stopped once, then message_delta and message_stop.
pub mod Blocks
pub mod Steps
pub mod Cases
pub mod Ending
pub mod Start
pub mod Accepted
pub mod Progress
use grokcli2api_go.Prelude.{
  ℕ, zero, suc, Bool, true, false, not, ◌&&◌, ◌||◌, Option, none, some, List, [], ◌∷◌,
  if◌then◌else◌, is_nil, eqb,
}
use grokcli2api_go.Prelude.Map.{Map}
use grokcli2api_go.Anthropic.Stream.{
  Block, Event, message_start, content_block_start, content_block_delta, content_block_stop,
  message_delta, message_stop, error_event, Translator,
}

pub data Phase : Type 0 where
  idle : Phase
  streaming : Phase
  ended : Phase
  over : Phase

abbrev pub is_idle : Phase → Bool
is_idle idle = true
is_idle phase = false

abbrev is_streaming : Phase → Bool
is_streaming streaming = true
is_streaming phase = false

abbrev is_ended : Phase → Bool
is_ended ended = true
is_ended phase = false

-- The number of blocks started, and the indices of those not stopped.
pub record Client : Type 0 where
  pub phase : Phase
  pub next : ℕ
  pub opened : List ℕ

abbrev pub has_index : ℕ → List ℕ → Bool
has_index i [] = false
has_index i (j ∷ js) = eqb i j || has_index i js

abbrev pub drop_index : ℕ → List ℕ → List ℕ
drop_index i [] = []
drop_index i (j ∷ js) = let rest = drop_index i js in if eqb i j then js else j ∷ rest

-- The client's state after an event, or none for one that it does not accept.
unfoldable pub step : Client → Event → Option Client
step c (message_start id model input_tokens) =
    if is_idle c.phase then some (record c { phase = streaming }) else none
step c (content_block_start i content) =
    if is_streaming c.phase && eqb i c.next
    then some (record c { next = suc c.next; opened = i ∷ c.opened })
    else none
step c (content_block_delta i content) =
    if is_streaming c.phase && has_index i c.opened then some c else none
step c (content_block_stop i) =
    if is_streaming c.phase && has_index i c.opened
    then some (record c { opened = drop_index i c.opened })
    else none
step c (message_delta reason sequence output_tokens) =
    if is_streaming c.phase && is_nil c.opened then some (record c { phase = ended }) else none
step c message_stop = if is_ended c.phase then some (record c { phase = over }) else none
step c (error_event message) = some c

unfoldable pub run : Client → List Event → Option Client
unfolding step
run c [] = some c
run c (e ∷ es) = elim (step c e) [ none ↦ none | some d ↦ run d es ]

abbrev pub new_client : Client
new_client = record { phase = idle; next = 0; opened = [] }

abbrev pub open_indices : Map Block → List ℕ
open_indices [] = []
open_indices ((k, b) ∷ m) = if b.closed then open_indices m else b.index ∷ open_indices m

abbrev pub phase_of : Bool → Bool → Phase
phase_of started finished = if finished then over else if started then streaming else idle

-- What the client knows of the translator.
abbrev pub view : Translator → Client
view t = record {
  phase = phase_of t.started t.finished;
  next = t.next_index;
  opened = open_indices t.blocks;
}

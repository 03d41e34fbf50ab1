-- ===== src/Tokens/Stopping.antt =====
-- `StopSequenceCriteria` and `StoppingCriteria` of server/lorax_server/utils/tokens.py.
-- A text is the list of its code points.
use lorax.Prelude.{
  contains, ℕ, zero, suc, ◌+◌, ◌-◌, ◌≤◌, ◌<◌, ◌≡◌, refl, Bool, true, false, ◌&&◌, ◌||◌, not, Option,
  none, some, List, [], ◌∷◌, ◌++◌, leb, ◌==◌, if◌then◌else◌,
}
pub mod Laws

abbrev pub Text : Type 0
Text = List ℕ

-- The line feed, which `.` does not match and `$` may precede.
abbrev pub newline : ℕ
newline = 10

unfoldable pub text_eq : Text → Text → Bool
text_eq [] [] = true
text_eq [] (c ∷ t) = false
text_eq (c ∷ s) [] = false
text_eq (c ∷ s) (d ∷ t) = c == d && text_eq s t

-- `$` without MULTILINE: the end, or before a line feed that ends the text.
unfoldable pub stop_here : Text → Text → Bool
unfolding text_eq
stop_here sequence rest = text_eq rest sequence || text_eq rest (sequence ++ newline ∷ [])

-- `re.compile(f".*{re.escape(stop_sequence)}$").findall(output)` is not empty: the search tries
-- every position, and `.*` may be empty, so some suffix of the output matches.
unfoldable pub StopSequenceCriteria_call : Text → Text → Bool
unfolding stop_here
StopSequenceCriteria_call stop_sequence [] = stop_here stop_sequence []
StopSequenceCriteria_call stop_sequence (c ∷ output) =
    stop_here stop_sequence (c ∷ output) || StopSequenceCriteria_call stop_sequence output

pub data FinishReason : Type 0 where
  finish_reason_length finish_reason_eos_token finish_reason_stop_sequence : FinishReason

-- `eos_token_ids` is a set of which only membership is asked.
pub record StoppingCriteria : Type 0 where
  pub eos_token_ids : List ℕ
  pub stop_sequence_criterias : List Text
  pub max_new_tokens : ℕ
  pub current_tokens : ℕ
  pub current_output : Text
  pub ignore_eos_token : Bool

-- The argument `eos_token_id`: nothing, one id, or a set of ids.
pub data EosTokenId : Type 0 where
  no_id : EosTokenId
  one_id : ℕ → EosTokenId
  id_set : List ℕ → EosTokenId

unfoldable pub eos_ids : EosTokenId → List ℕ
eos_ids no_id = []
eos_ids (one_id t) = t ∷ []
eos_ids (id_set ts) = ts

-- `__init__`, which `from_pb` calls with all four arguments.
unfoldable pub new : EosTokenId → List Text → ℕ → Bool → StoppingCriteria
unfolding eos_ids
new eos_token_id stop_sequence_criterias max_new_tokens ignore_eos_token = record {
  eos_token_ids = eos_ids eos_token_id;
  stop_sequence_criterias = stop_sequence_criterias;
  max_new_tokens = max_new_tokens;
  current_tokens = 0;
  current_output = [];
  ignore_eos_token = ignore_eos_token;
}

-- StoppingCriteriaParameters of a request.
pub record StoppingParameters : Type 0 where
  pub stop_sequences : List Text
  pub max_new_tokens : ℕ
  pub ignore_eos_token : Bool

-- `eos_token_id` is the tokenizer's `eos_token_ids`, or its `eos_token_id` if it has no such set.
unfoldable pub from_pb : StoppingParameters → EosTokenId → StoppingCriteria
unfolding new
from_pb pb eos_token_id = new eos_token_id pb.stop_sequences pb.max_new_tokens pb.ignore_eos_token

-- The loop over the stop sequences, which returns at the first that matches.
unfoldable pub any_stop : List Text → Text → Bool
any_stop [] output = false
any_stop (sequence ∷ rest) output =
    StopSequenceCriteria_call sequence output || any_stop rest output

-- `__call__`: the answer is the reason, or none if generation goes on; the object is mutated, the
-- output only where the first two tests fail.
unfoldable pub call : StoppingCriteria → ℕ → Text → StoppingCriteria × Option FinishReason
call s last_token last_output =
    let counted = record s { current_tokens = s.current_tokens + 1 } in
    if leb s.max_new_tokens counted.current_tokens
    then (counted, some finish_reason_length)
    else if not s.ignore_eos_token && contains s.eos_token_ids last_token
    then (counted, some finish_reason_eos_token)
    else let output = s.current_output ++ last_output in
      let grown = record counted { current_output = output } in
      if any_stop s.stop_sequence_criterias output
      then (grown, some finish_reason_stop_sequence)
      else (grown, none)

-- Calls in turn until one of them stops: the tokens consumed, the state and the reason.
pub run : StoppingCriteria → List (ℕ × Text) → ℕ × StoppingCriteria × Option FinishReason
run s [] = (0, s, none)
run s ((token, text) ∷ rest) =
    let (s', reason) = call s token text in
    elim reason [
      | some r ↦ (1, s', some r)
      | none ↦ let (n, s'', r) = run s' rest in (suc n, s'', r)
    ]

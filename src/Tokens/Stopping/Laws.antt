-- ===== src/Tokens/Stopping/Laws.antt =====
-- When generation stops, and why.
use lorax.Prelude.{
  contains, ℕ, suc, ◌+◌, ◌-◌, ◌≤◌, ◌<◌, ◌≡◌, refl, true, false, Option, none, some, List, [], ◌∷◌,
  ◌++◌, arith, ◌↔◌, ◌⊎◌, inl, inr, Bool-cases, Option-cases, length, max,
}
use lorax.Tokens.Stopping.{
  Text, newline, text_eq, stop_here, StopSequenceCriteria_call, StoppingCriteria, FinishReason,
  finish_reason_length, finish_reason_eos_token, finish_reason_stop_sequence, any_stop, call, run,
}

pub text_eq→eq : (s t : Text) → text_eq s t ≡ true → s ≡ t
unfolding text_eq
text_eq→eq [] [] h = refl
text_eq→eq [] (c ∷ t) h = ground arith
text_eq→eq (c ∷ s) [] h = ground arith
text_eq→eq (c ∷ s) (d ∷ t) h = ground (arith, text_eq→eq s t)

text_eq_refl : (s : Text) → text_eq s s ≡ true
unfolding text_eq
text_eq_refl [] = refl
text_eq_refl (c ∷ s) = ground (arith, text_eq_refl s)

-- What the expression accepts: some text, the stop sequence, and perhaps one line feed.
abbrev pub EndsWith : Text → Text → Type 0
EndsWith sequence output =
    (before : Text) × ((output ≡ before ++ sequence)
      ⊎ (output ≡ before ++ (sequence ++ newline ∷ [])))

call→EndsWith : (q output : Text) → StopSequenceCriteria_call q output ≡ true → EndsWith q output
unfolding StopSequenceCriteria_call stop_here
call→EndsWith q [] h = ([], ground (arith, text_eq→eq [] q, text_eq→eq [] (q ++ newline ∷ [])))
call→EndsWith q (c ∷ output) h = elim (Bool-cases (stop_here q (c ∷ output))) [
  | inl e ↦
      ([], ground (arith, text_eq→eq (c ∷ output) q, text_eq→eq (c ∷ output) (q ++ newline ∷ [])))
  | inr e ↦ let (before, p) = call→EndsWith q output (ground arith) in (c ∷ before, ground arith)
]

here-call :
    (q output : Text) → stop_here q output ≡ true → StopSequenceCriteria_call q output ≡ true
unfolding StopSequenceCriteria_call
here-call q [] h = h
here-call q (c ∷ output) h = ground arith

call-append :
    (q before output : Text)
    → StopSequenceCriteria_call q output ≡ true
    → StopSequenceCriteria_call q (before ++ output) ≡ true
unfolding StopSequenceCriteria_call
call-append q [] output h = h
call-append q (c ∷ before) output h = ground (arith, call-append q before output h)

here_exact : (q : Text) → stop_here q q ≡ true
unfolding stop_here
here_exact q = ground (arith, text_eq_refl q)

here_newline : (q : Text) → stop_here q (q ++ newline ∷ []) ≡ true
unfolding stop_here
here_newline q = ground (arith, text_eq_refl (q ++ newline ∷ []))

EndsWith→call : (q output : Text) → EndsWith q output → StopSequenceCriteria_call q output ≡ true
EndsWith→call q output (before, inl e) =
    rw e (call-append q before q (here-call q q (here_exact q)))
EndsWith→call q output (before, inr e) =
    rw e
      (call-append q before (q ++ newline ∷ []) (here-call q (q ++ newline ∷ []) (here_newline q)))

-- The criterion holds exactly of the texts that end with the stop sequence, or with the stop
-- sequence and one line feed.
pub StopSequenceCriteria_call-EndsWith :
    (q output : Text) → (StopSequenceCriteria_call q output ≡ true) ↔ EndsWith q output
StopSequenceCriteria_call-EndsWith q output = (call→EndsWith q output, EndsWith→call q output)

-- One of the stop sequences stands at the end.
abbrev pub EndsWithAny : List Text → Text → Type 0
EndsWithAny [] output = ⊥
EndsWithAny (q ∷ qs) output = EndsWith q output ⊎ EndsWithAny qs output

any_stop→EndsWithAny :
    (qs : List Text) (output : Text) → any_stop qs output ≡ true → EndsWithAny qs output
unfolding any_stop
any_stop→EndsWithAny [] output h = ground (arith, h)
any_stop→EndsWithAny (q ∷ qs) output h = elim (Bool-cases (StopSequenceCriteria_call q output)) [
  | inl e ↦ inl (call→EndsWith q output e)
  | inr e ↦ inr (any_stop→EndsWithAny qs output (ground (arith, e, h)))
]

EndsWithAny→any_stop :
    (qs : List Text) (output : Text) → EndsWithAny qs output → any_stop qs output ≡ true
unfolding any_stop
EndsWithAny→any_stop [] output h = absurd h
EndsWithAny→any_stop (q ∷ qs) output (inl h) = ground (arith, EndsWith→call q output h)
EndsWithAny→any_stop (q ∷ qs) output (inr h) = ground (arith, EndsWithAny→any_stop qs output h)

-- What one call answers, as facts about the state that it leaves.
pub record Answer (s : StoppingCriteria) (token : ℕ) (text : Text) (after : StoppingCriteria)
    (reason : Option FinishReason) : Type 0 where
  pub counted : after.current_tokens ≡ s.current_tokens + 1
  pub limit : (reason ≡ some finish_reason_length) ↔ (s.max_new_tokens ≤ after.current_tokens)
  pub eos : (reason ≡ some finish_reason_eos_token) ↔ (
      (after.current_tokens < s.max_new_tokens)
      × (s.ignore_eos_token ≡ false)
      × (contains s.eos_token_ids token ≡ true))
  pub stopped :
      reason ≡ some finish_reason_stop_sequence
      → EndsWithAny s.stop_sequence_criterias after.current_output
        × (after.current_output ≡ s.current_output ++ text)
  pub goes_on :
      reason ≡ none
      → (EndsWithAny s.stop_sequence_criterias after.current_output → ⊥)
        × (after.current_output ≡ s.current_output ++ text)
        × (after.current_tokens < s.max_new_tokens)

stopped_at :
    (s : StoppingCriteria) (token : ℕ) (text : Text)
    → (call s token text).1 ≡ some finish_reason_stop_sequence
    → (any_stop s.stop_sequence_criterias (call s token text).0.current_output ≡ true)
      × ((call s token text).0.current_output ≡ s.current_output ++ text)
unfolding call
stopped_at s token text = ground arith

going_on :
    (s : StoppingCriteria) (token : ℕ) (text : Text)
    → (call s token text).1 ≡ none
    → (any_stop s.stop_sequence_criterias (call s token text).0.current_output ≡ false)
      × ((call s token text).0.current_output ≡ s.current_output ++ text)
      × ((call s token text).0.current_tokens < s.max_new_tokens)
unfolding call
going_on s token text = ground arith

-- One call counts the token. It answers with the length exactly when the count reaches the limit,
-- and with the end-of-sequence token exactly when, below the limit, the token is in the set and the
-- set is not ignored. If it answers with a stop sequence, the output with the new text ends in one;
-- if it answers nothing, that output ends in none and the limit is not reached.
pub call-Answer :
    (s : StoppingCriteria) (token : ℕ) (text : Text)
    → Answer s token text (call s token text).0 (call s token text).1
unfolding call
call-Answer s token text = record {
  counted = ground arith;
  limit = (ground arith, ground arith);
  eos = (ground arith, ground arith);
  stopped = λ h.
      let (ends, grown) = stopped_at s token text h in
      (
        any_stop→EndsWithAny s.stop_sequence_criterias (call s token text).0.current_output ends,
        grown,
      );
  goes_on = λ h.
      let (ends, grown, low) = going_on s token text h in
      (
        λ k.
            let found =
              EndsWithAny→any_stop s.stop_sequence_criterias (call s token text).0.current_output
                k in
            ground (arith, ends, found),
        grown,
        low,
      );
}

-- When tokens are handed to the criteria one by one until one of them gives a reason to stop,
-- `current_tokens` has grown by the number of tokens handed over, the last one included.
run-counts :
    (s : StoppingCriteria) (tokens : List (ℕ × Text))
    → (run s tokens).1.current_tokens ≡ s.current_tokens + (run s tokens).0
unfolding run call
run-counts s [] = omega arith
run-counts s ((token, text) ∷ rest) = ground (arith, run-counts (call s token text).0 rest)

pub call-limit :
    (s : StoppingCriteria) (token : ℕ) (text : Text)
    → (call s token text).0.max_new_tokens ≡ s.max_new_tokens
unfolding call
call-limit s token text = ground arith

run_stop :
    (s : StoppingCriteria) (token : ℕ) (text : Text) (rest : List (ℕ × Text)) (r : FinishReason)
    → (call s token text).1 ≡ some r
    → run s ((token, text) ∷ rest) ≡ (1, (call s token text).0, some r)
unfolding run
run_stop s token text rest r e = rw (e, run)

run_on :
    (s : StoppingCriteria) (token : ℕ) (text : Text) (rest : List (ℕ × Text))
    → (call s token text).1 ≡ none
    → run s ((token, text) ∷ rest) ≡ (
      suc (run (call s token text).0 rest).0,
      (run (call s token text).0 rest).1,
      (run (call s token text).0 rest).2,
    )
unfolding run
run_on s token text rest e = rw (e, run)

-- A run over enough tokens to reach the limit, and at least one, stops for some reason, and
-- consumes no more tokens than were left below the limit, or one if none was.
pub run-stops :
    (s : StoppingCriteria) (tokens : List (ℕ × Text))
    → 0 < length tokens
    → s.max_new_tokens ≤ s.current_tokens + length tokens
    → (r : FinishReason) × ((run s tokens).2 ≡ some r)
      × ((run s tokens).0 ≤ max 1 (s.max_new_tokens - s.current_tokens))
run-stops s [] h k = absurd (omega arith)
run-stops s ((token, text) ∷ rest) h k = elim (Option-cases (call s token text).1) [
  | inl e ↦
      let s' = (call s token text).0 in
      let (_, _, below) = (call-Answer s token text).goes_on e in
      let counted = (call-Answer s token text).counted in
      let same = call-limit s token text in
      let (r, p, q) = run-stops s' rest (omega arith) (omega arith) in
      (r, rw (run_on s token text rest e) p, rw (run_on s token text rest e) (omega arith))
  | inr (r, e) ↦
      (r, rw (run_stop s token text rest r e), rw (run_stop s token text rest r e) (omega arith))
]

-- ===== src/Routing/Executor/Safety.antt =====
-- Every run of the executor: what its calls had before them, what its answer may say, and that the
-- outcome of an admitted request is recorded.
use mathlib.Core.List.{Sublistᴰ}
use memory_server_worker.Prelude.{
  String, Bool, true, false, some, Result, ok, err, ◌≡◌, refl, sym, ◌∙◌, ap, arith, Bool-cases, inl,
  inr, if◌then◌else◌,
}
use memory_server_worker.Prelude.Actions.{
  Action, continue, After, After-continue, After-throw_if, After-both,
}
use memory_server_worker.Routing.Policy
use memory_server_worker.Routing.Policy.{resolve_memory_route}
use memory_server_worker.Routing.Executor.Requests.{
  Input, ingest_request, search_request, clear_request, usage_request,
}
use memory_server_worker.Routing.Executor.Ports.{Failure, Authority, Ports, Run, Config, start}
use memory_server_worker.Routing.Executor.Answers.{Answer, Externals, error_answer}
use memory_server_worker.Routing.Executor.Admission.{finalize}
use memory_server_worker.Routing.Executor.Dispatching.{
  Exchange, ingestion, question, input_of, handle_exchange,
}
use memory_server_worker.Routing.Executor.Execution.{
  lift, parse, conclude, identity_of, handle, run_request, try_request, settle_failure, execute,
}
use memory_server_worker.Routing.Executor.Clearance.{start-IsSound}
use memory_server_worker.Routing.Executor.Steps.{Sound, live-then, reads-then}
use memory_server_worker.Routing.Executor.Settling.{IsFinal, HasWritten, finalize-After}
use memory_server_worker.Routing.Executor.Disclosure.{Justified-error}
use memory_server_worker.Routing.Executor.Retiring.{report_usage-After, clear_space-After}
use memory_server_worker.Routing.Executor.Dispatches.{IsAnswered}
use memory_server_worker.Routing.Executor.Exchanges.{exchange-After}
use memory_server_worker.Routing.Executor.Identifying.{
  Attempted, IsSafe, IsIdentified, identify-After,
}

module _ {ℓ} {S : Type ℓ} (x : Externals) (config : Config) (token : String) (ports : Ports S) where
  abbrev Safe : Input → Answer → Run S → Type ℓ
  Safe input a s = IsSafe x config token ports input (a, s)

  input_of-injective : (e f : Exchange) → input_of e ≡ input_of f → e ≡ f
  input_of-injective e f h = ground arith

  -- A run of an exchange that returned.
  IsAnswered-IsSafe :
      (e : Exchange) (first : Authority) (a : Answer) (s : Run S)
      → IsAnswered x config token ports e first a s
      → Safe (input_of e) a s
  IsAnswered-IsSafe (ingestion v) first a s h = record {
    sound = h.sound;
    justified = h.discloses;
    attempted = λ f same t filed may. h.attempted t (h.sound.filed ∙ filed) may;
  }
  IsAnswered-IsSafe (question v) first a s h = record {
    sound = h.sound;
    justified = h.discloses;
    attempted = λ f same t filed may. h.attempted t (h.sound.filed ∙ filed) may;
  }

  handle_exchange-After :
      (e : Exchange) (first : Authority) (s : Run S)
      → IsIdentified x config token ports (input_of e) first s
      → After
          (IsAnswered x config token ports e first)
          (Sound x config token (input_of e) ports)
          (handle_exchange x config ports token e first (identity_of config first) s)
  unfolding handle_exchange
  handle_exchange-After (ingestion v) first s h =
      exchange-After x config token ports (ingestion v) first v.operation_id s refl h.sound
        h.is_first h.is_identity h.calm h.asked
  handle_exchange-After (question v) first s h =
      reads-then x config token (search_request v) ports
        (IsAnswered x config token ports (question v) first) ports.random_uuid _ _ s (λ id. refl)
        h.sound
        (λ id w h1 q1.
          exchange-After x config token ports (question v) first id _ tt h1 h.is_first h.is_identity
            h.calm (Sublistᴰ.cons h.asked))

  handle-After :
      (input : Input) (first : Authority) (s : Run S)
      → IsIdentified x config token ports input first s
      → After
          (Safe input)
          (Sound x config token input ports)
          (handle x config ports token input first (identity_of config first) s)
  unfolding handle
  handle-After (ingest_request v) first s h =
      After-both _ (handle_exchange-After (ingestion v) first s h) (λ s' f. f)
        (λ a s' k. IsAnswered-IsSafe (ingestion v) first a s' k)
  handle-After (search_request v) first s h =
      After-both _ (handle_exchange-After (question v) first s h) (λ s' f. f)
        (λ a s' k. IsAnswered-IsSafe (question v) first a s' k)
  handle-After (clear_request v) first s h =
      After-both _ (clear_space-After x config token ports first v s h.sound) (λ s' f. f)
        (λ a s' k. record {
          sound = k.0;
          justified = k.1;
          attempted = λ e same. absurd (no_clear e same);
        })
    where
      no_clear : (e : Exchange) → clear_request v ≡ input_of e → ⊥
      no_clear e same = ground arith
  handle-After (usage_request v) first s h =
      After-both _ (report_usage-After x config token ports first v _ s h.sound) (λ s' f. f)
        (λ a s' k. record {
          sound = k.0;
          justified = k.1;
          attempted = λ e same. absurd (no_usage e same);
        })
    where
      no_usage : (e : Exchange) → usage_request v ≡ input_of e → ⊥
      no_usage e same = ground arith

  module _ (input : Input) where
    abbrev Fair : Run S → Type ℓ
    Fair = Sound x config token input ports

    lift-then :
        {A : Type 0} (result : Result Policy.Code A) (rest : A → Action Failure (Run S) Answer)
        (r : Run S)
        → Fair r
        → ((a : A) → After (Safe input) Fair (rest a r))
        → After (Safe input) Fair (continue rest (lift result r))
    unfolding After continue lift
    lift-then (ok a) rest r h goes = goes a
    lift-then (err code) rest r h goes = h

    parse-then :
        (b : Bool) (rest : Input → Action Failure (Run S) Answer) (r : Run S)
        → Fair r
        → After (Safe input) Fair (rest input r)
        → After
            (Safe input)
            Fair
            (continue rest (if b then (ok input, r) else (err (some "routing_request_invalid"), r)))
    unfolding After continue
    parse-then true rest r h goes = goes
    parse-then false rest r h goes = h

    try_request-After :
        (s : S) → After (Safe input) Fair (try_request x config ports token (some input) (start s))
    unfolding try_request parse run_request
    try_request-After s =
        live-then x config token input ports (Safe input) _ _ (start-IsSound x config token input s)
          (λ r h live. parse-then _ _ r h (
            After-throw_if Fair (Safe input) _ _ _ r h (λ no_mode. lift-then _ _ r h (λ plan.
              After-throw_if Fair (Safe input) _ _ _ r h (λ enabled.
                After-continue Fair (IsIdentified x config token ports input) (Safe input) _ _
                  (identify-After x config token ports input r h
                    (ap (λ l. l.ticket) live.locals_same) (rw live.log refl))
                  (λ first t k. handle-After input first t k))))))

    conclude-IsSafe :
        (handler : Failure → Run S → Answer × Run S) (m : Result Failure Answer × Run S)
        → After (Safe input) Fair m
        → ((e : Failure) (s : Run S) → Fair s → IsSafe x config token ports input (handler e s))
        → IsSafe x config token ports input (conclude handler m)
    unfolding conclude After
    conclude-IsSafe handler (ok a, s) h goes = h
    conclude-IsSafe handler (err e, s) h goes = goes e s h

    failed-IsSafe :
        (failure : Failure) (s : Run S)
        → Fair s
        → Attempted x config token ports input s
        → IsSafe x config token ports input (error_answer failure s.locals, s)
    unfolding error_answer
    failed-IsSafe failure s h tried = record {
      sound = h;
      justified = Justified-error config token input _ _ _ _ _ s.log (h.truthful, λ k. h.shown k);
      attempted = tried;
    }

    IsFinal-run :
        (r : Run S) (m : Result Failure (Unit {0}) × Run S)
        → After
            (λ _ s. IsFinal x config token input r s × HasWritten x config token input r s)
            (IsFinal x config token input r)
            m
        → IsFinal x config token input r m.1
    unfolding After
    IsFinal-run r (ok a, s) h = h.0
    IsFinal-run r (err e, s) h = h

    settle_failure-IsSafe :
        (failure : Failure) (r : Run S)
        → Fair r
        → IsSafe x config token ports input (settle_failure x config ports token failure r)
    unfolding settle_failure
    settle_failure-IsSafe failure r h = elim (Bool-cases r.locals.recorded) [
      | inl done ↦ simp done (failed-IsSafe failure r h (λ e same t filed may. h.settled done))
      | inr pending ↦ simp pending (
          let final =
            IsFinal-run r (finalize config ports r)
              (finalize-After x config token input ports r h) in
          failed-IsSafe failure (finalize config ports r).1 final.later.sound (λ e same t filed may.
            final.attempted t
              (sym (ap (λ l. l.ticket) final.later.locals_same) ∙ final.later.sound.filed ∙ filed)
              may))
    ]

    pub execute-IsSafe :
        (s : S) → IsSafe x config token ports input (execute x config ports token (some input) s)
    unfolding execute
    execute-IsSafe s =
        conclude-IsSafe (settle_failure x config ports token) _ (try_request-After s)
          settle_failure-IsSafe

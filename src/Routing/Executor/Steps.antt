-- ===== src/Routing/Executor/Steps.antt =====
-- The rest of a block of the executor, behind a call that has no condition: the run is still sound.
use memory_server_worker.Prelude.{ℕ, String, true, Result, ok, err, ◌≡◌}
use memory_server_worker.Prelude.Actions.{Action, continue, After}
use memory_server_worker.Routing.SpaceLedger.Inputs.{Ticket}
use memory_server_worker.Routing.Executor.Requests.{Input}
use memory_server_worker.Routing.Executor.Ports.{
  Failure, Authority, Ports, Event, Run, Config, perform, observe,
}
use memory_server_worker.Routing.Executor.Answers.{Externals}
use memory_server_worker.Routing.Executor.Admission.{check, check_admission, refresh}
use memory_server_worker.Routing.Executor.Traces.{is_quiet, Quiet}
use memory_server_worker.Routing.Executor.Calls.{
  grown, Quiet-grown, perform-then, observe-then, IsLive, IsLive-Quiet, check-then, IsTimely,
  IsTimely-Quiet, check_admission-then, IsRefreshed, refresh-then,
}
use memory_server_worker.Routing.Executor.Clearance.{IsSound, IsSound-Quiet}

module _ {ℓ} {S : Type ℓ} (x : Externals) (config : Config) (token : String) (input : Input)
    (ports : Ports S) where
  abbrev pub Sound : Run S → Type ℓ
  Sound = IsSound x config token input

  pub still : {r s : Run S} → Sound r → Quiet r s → Sound s
  still h q = IsSound-Quiet x config token input h q

  module _ {κ} {B : Type κ} (Q : B → Run S → Type ℓ) where
    pub live-then :
        (rest : Unit {0} → Action Failure (Run S) B) (r : Run S)
        → Sound r
        → ((s : Run S) → Sound s → IsLive r s → After Q Sound (rest tt s))
        → After Q Sound (continue rest (check ports r))
    live-then rest r h then =
        check-then ports Sound Q rest r (λ s q. still h q)
          (λ s live. then s (still h (IsLive-Quiet live)) live)

    pub timely-then :
        (ticket : Ticket) (expires : ℕ) (rest : Unit {0} → Action Failure (Run S) B) (r : Run S)
        → Sound r
        → ((s : Run S) → Sound s → IsTimely config ticket expires r s → After Q Sound (rest tt s))
        → After Q Sound (continue rest (check_admission config ports ticket expires r))
    timely-then ticket expires rest r h then =
        check_admission-then config ports Sound Q ticket expires rest r (λ s q. still h q)
          (λ s timely. then s (still h (IsTimely-Quiet timely)) timely)

    pub fresh-then :
        (first : Authority) (rest : Authority → Action Failure (Run S) B) (r : Run S)
        → Sound r
        → ((current : Authority) (s : Run S)
            → Sound s
            → IsRefreshed token input first current r s
            → After Q Sound (rest current s))
        → After Q Sound (continue rest (refresh ports token input first r))
    fresh-then first rest r h then =
        refresh-then ports token input first Sound Q rest r (λ s q. still h q)
          (λ current s fresh. then current s (still h fresh.quiet) fresh)

    pub reads-then {μ} :
        {A : Type μ} (port : S → A × S) (event : A → Event) (rest : A → Action Failure (Run S) B)
        (r : Run S)
        → ((a : A) → is_quiet (event a) ≡ true)
        → Sound r
        → ((a : A) (w : S)
            → Sound (grown r w (event a))
            → Quiet r (grown r w (event a))
            → After Q Sound (rest a (grown r w (event a))))
        → After Q Sound (continue rest (observe port event r))
    reads-then port event rest r quiet h then =
        observe-then Sound Q port event rest r
          (λ a w e. let q = Quiet-grown r w (event a) (quiet a) in then a w (still h q) q)

    pub asks-then {μ} :
        {A : Type μ} (port : Action Failure S A) (event : Result Failure A → Event)
        (rest : A → Action Failure (Run S) B) (r : Run S)
        → ((result : Result Failure A) → is_quiet (event result) ≡ true)
        → Sound r
        → ((a : A) (w : S)
            → Sound (grown r w (event (ok a)))
            → Quiet r (grown r w (event (ok a)))
            → After Q Sound (rest a (grown r w (event (ok a)))))
        → After Q Sound (continue rest (perform port event r))
    asks-then port event rest r quiet h then =
        perform-then Sound Q port event rest r
          (λ a w e. let q = Quiet-grown r w (event (ok a)) (quiet (ok a)) in then a w (still h q) q)
          (λ e w k. still h (Quiet-grown r w (event (err e)) (quiet (err e))))

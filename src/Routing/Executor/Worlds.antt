-- ===== src/Routing/Executor/Worlds.antt =====
-- What every call of the executor keeps of the world and the log, every run keeps.
use memory_server_worker.Prelude.{
  ℕ, String, Bool, true, false, List, ◌∷◌, Result, ok, err, if◌then◌else◌,
}
use memory_server_worker.Prelude.Actions.{
  Action, continue, ◌>>=◌, return, throw_if, recover, captured,
}
use memory_server_worker.Routing.Budget.Inputs.{ReserveInput, FinalizeInput as Settlement}
use memory_server_worker.Routing.SpaceLedger.Rows.{Identity}
use memory_server_worker.Routing.SpaceLedger.Inputs.{
  AdmitInput, CheckInput, FinalizeInput, RetireInput, FinishInput,
}
use memory_server_worker.Routing.Executor.Requests.{Kind, Message}
use memory_server_worker.Routing.Executor.Ports.{
  Failure, Ports, Event, clock_read, signal_read, uuid_drawn, authority_asked, admits, checks,
  finalizes, retires, finishes, reports, reserves, settles, ingests, recalls, deletes, Locals, Run,
  perform, observe, assign, get,
}

-- Each call keeps what holds of the world and the log.
pub record IsKept {ℓ ι} {S : Type ℓ} (ports : Ports S) (I : S → List Event → Type ι)
    : Type (ℓ ⊔ ι) where
  pub clock_kept :
      (s : S) (log : List Event)
      → I s log
      → I (ports.clock s).1 (clock_read (ports.clock s).0 ∷ log)
  pub aborted_kept :
      (s : S) (log : List Event)
      → I s log
      → I (ports.aborted s).1 (signal_read (ports.aborted s).0 ∷ log)
  pub random_uuid_kept :
      (s : S) (log : List Event)
      → I s log
      → I (ports.random_uuid s).1 (uuid_drawn (ports.random_uuid s).0 ∷ log)
  pub authority_kept :
      (token space_id : String) (k : Kind) (s : S) (log : List Event)
      → I s log
      → I
          (ports.authority token space_id k s).1
          (authority_asked token space_id k (ports.authority token space_id k s).0 ∷ log)
  pub admit_kept :
      (v : AdmitInput) (s : S) (log : List Event)
      → I s log
      → I (ports.admit v s).1 (admits v (ports.admit v s).0 ∷ log)
  pub check_kept :
      (v : CheckInput) (s : S) (log : List Event)
      → I s log
      → I (ports.check v s).1 (checks v (ports.check v s).0 ∷ log)
  pub finalize_kept :
      (v : FinalizeInput) (s : S) (log : List Event)
      → I s log
      → I (ports.finalize v s).1 (finalizes v (ports.finalize v s).0 ∷ log)
  pub retire_kept :
      (v : RetireInput) (s : S) (log : List Event)
      → I s log
      → I (ports.retire v s).1 (retires v (ports.retire v s).0 ∷ log)
  pub finish_kept :
      (v : FinishInput) (s : S) (log : List Event)
      → I s log
      → I (ports.finish_retirement v s).1 (finishes v (ports.finish_retirement v s).0 ∷ log)
  pub usage_kept :
      (i : Identity) (s : S) (log : List Event)
      → I s log
      → I (ports.usage i s).1 (reports i (ports.usage i s).0 ∷ log)
  pub reserve_kept :
      (v : ReserveInput) (s : S) (log : List Event)
      → I s log
      → I (ports.reserve v s).1 (reserves v (ports.reserve v s).0 ∷ log)
  pub settle_kept :
      (v : Settlement) (s : S) (log : List Event)
      → I s log
      → I (ports.settle v s).1 (settles v (ports.settle v s).0 ∷ log)
  pub ingest_kept :
      (p : String) (ms : List Message) (session : String) (d : ℕ) (s : S) (log : List Event)
      → I s log
      → I
          (ports.ingest p ms session d s).1
          (ingests p ms session d (ports.ingest p ms session d s).0 ∷ log)
  pub recall_kept :
      (p q : String) (d : ℕ) (s : S) (log : List Event)
      → I s log
      → I (ports.recall p q d s).1 (recalls p q d (ports.recall p q d s).0 ∷ log)
  pub delete_kept :
      (p : String) (d : ℕ) (s : S) (log : List Event)
      → I s log
      → I (ports.delete_profile p d s).1 (deletes p d (ports.delete_profile p d s).0 ∷ log)

module _ {ℓ ι} {S : Type ℓ} (I : S → List Event → Type ι) where
  abbrev pub Holds : Run S → Type ι
  Holds r = I r.world r.log

  -- The code keeps it, whether it returns or throws.
  unfoldable pub Keeps {κ} : {A : Type κ} → Action Failure (Run S) A → Type (ℓ ⊔ ι)
  Keeps action = (r : Run S) → Holds r → Holds (action r).1

  module _ {κ} {A : Type κ} where
    continue-Holds {ν} :
        {B : Type ν} (rest : A → Action Failure (Run S) B) (m : Result Failure A × Run S)
        → Holds m.1
        → ((a : A) → Keeps (rest a))
        → Holds (continue rest m).1
    unfolding continue Keeps
    continue-Holds rest (ok a, r) h k = k a r h
    continue-Holds rest (err e, r) h k = h

    pub bind-Keeps {ν} :
        {B : Type ν} (first : Action Failure (Run S) A) (rest : A → Action Failure (Run S) B)
        → Keeps first
        → ((a : A) → Keeps (rest a))
        → Keeps (first >>= rest)
    unfolding Keeps
    bind-Keeps first rest h k r w = continue-Holds rest (first r) (h r w) k

    pub return-Keeps : (a : A) → Keeps (return a)
    unfolding Keeps
    return-Keeps a r w = w

    pub if-Keeps :
        (b : Bool) (f g : Action Failure (Run S) A) → Keeps f → Keeps g → Keeps (if b then f else g)
    if-Keeps true f g h k = h
    if-Keeps false f g h k = k

    recover-Holds :
        (handler : Failure → Action Failure (Run S) A) (m : Result Failure A × Run S)
        → Holds m.1
        → ((e : Failure) → Keeps (handler e))
        → Holds (recover handler m).1
    unfolding recover Keeps
    recover-Holds handler (ok a, r) h k = h
    recover-Holds handler (err e, r) h k = k e r h

    pub recover-Keeps :
        (handler : Failure → Action Failure (Run S) A) (body : Action Failure (Run S) A)
        → Keeps body
        → ((e : Failure) → Keeps (handler e))
        → Keeps (λ r. recover handler (body r))
    unfolding Keeps
    recover-Keeps handler body h k r w = recover-Holds handler (body r) (h r w) k

    pub perform-Keeps :
        (port : Action Failure S A) (event : Result Failure A → Event)
        → ((s : S) (log : List Event) → I s log → I (port s).1 (event (port s).0 ∷ log))
        → Keeps (perform port event)
    unfolding Keeps perform
    perform-Keeps port event h r w = h r.world r.log w

    pub observe-Keeps :
        (port : S → A × S) (event : A → Event)
        → ((s : S) (log : List Event) → I s log → I (port s).1 (event (port s).0 ∷ log))
        → Keeps (observe port event)
    unfolding Keeps observe
    observe-Keeps port event h r w = h r.world r.log w

  pub throw_if-Keeps : (b : Bool) (e : Failure) → Keeps (throw_if b e)
  unfolding Keeps throw_if
  throw_if-Keeps true e r w = w
  throw_if-Keeps false e r w = w

  pub assign-Keeps : (change : Locals → Locals) → Keeps (assign change)
  unfolding Keeps assign
  assign-Keeps change r w = w

  pub get-Keeps : Keeps get
  unfolding Keeps get
  get-Keeps r w = w

  captured-Holds {κ} :
      {A : Type κ} (m : Result Failure A × Run S) → Holds m.1 → Holds (captured m).1
  unfolding captured
  captured-Holds (ok a, r) h = h
  captured-Holds (err e, r) h = h

  pub captured-Keeps {κ} :
      {A : Type κ} (body : Action Failure (Run S) A) → Keeps body → Keeps (λ r. captured (body r))
  unfolding Keeps
  captured-Keeps body h r w = captured-Holds (body r) (h r w)

pub ruleset keeps = (
  bind-Keeps, return-Keeps, if-Keeps, recover-Keeps, perform-Keeps, observe-Keeps, throw_if-Keeps,
  assign-Keeps, get-Keeps, captured-Keeps,
)

-- ===== src/Routing/Executor/Traces.antt =====
-- Logs of the executor: which calls matter for what a run may do, what the log says of the outcome,
-- and logs that grow by other calls only.
use mathlib.Core.List.{Memᴰ, Sublistᴰ}
use mathlib.Core.List.Sublistᴰ.{nil-sublist}
use memory_server_worker.Prelude.{
  Bool, true, false, Option, none, some, List, [], ◌∷◌, any_row, ok, err, ◌≡◌, refl, ◌∙◌, arith,
}
use memory_server_worker.Routing.SpaceLedger.Rows.{State, accepted, read_failed, not_dispatched}
use memory_server_worker.Routing.SpaceLedger.Inputs.{Ticket}
use memory_server_worker.Routing.Executor.Ports.{
  Event, clock_read, signal_read, uuid_drawn, authority_asked, admits, checks, retires, lists,
  finishes, reports, reserves, ingests, recalls, Run,
}

-- A call that shows the content of a request to the provider.
abbrev pub is_dispatch : Event → Bool
is_dispatch (ingests profile messages session deadline_ms result) = true
is_dispatch (recalls profile query deadline_ms result) = true
is_dispatch _ = false

-- What the newest of these calls says of the outcome.
unfoldable pub outcome_of : List Event → State
outcome_of [] = not_dispatched
outcome_of (ingests profile messages session deadline_ms (ok done) ∷ log) = accepted
outcome_of (ingests profile messages session deadline_ms (err e) ∷ log) = State.unknown
outcome_of (recalls profile query deadline_ms (ok found) ∷ log) = accepted
outcome_of (recalls profile query deadline_ms (err e) ∷ log) = read_failed
outcome_of (_ ∷ log) = outcome_of log

-- The newest ticket that was issued.
unfoldable pub admission_of : List Event → Option Ticket
admission_of [] = none
admission_of (admits v (ok ticket) ∷ log) = some ticket
admission_of (_ ∷ log) = admission_of log

-- The calls that have no condition and change none of these.
abbrev pub is_quiet : Event → Bool
is_quiet (clock_read now) = true
is_quiet (signal_read aborted) = true
is_quiet (uuid_drawn id) = true
is_quiet (authority_asked token space_id kind result) = true
is_quiet (checks v result) = true
is_quiet (retires v result) = true
is_quiet (lists v result) = true
is_quiet (finishes v result) = true
is_quiet (reports v result) = true
is_quiet (reserves v result) = true
is_quiet _ = false

outcome_of-quiet :
    (e : Event) (log : List Event) → is_quiet e ≡ true → outcome_of (e ∷ log) ≡ outcome_of log
unfolding outcome_of
outcome_of-quiet e log h = ground arith

admission_of-quiet :
    (e : Event) (log : List Event) → is_quiet e ≡ true → admission_of (e ∷ log) ≡ admission_of log
unfolding admission_of
admission_of-quiet e log h = ground arith

is_dispatch-quiet : (e : Event) → is_quiet e ≡ true → is_dispatch e ≡ false
is_dispatch-quiet e h = ground arith

-- The second log is the first one with quiet calls behind it.
pub data IsQuiet (old : List Event) : List Event → Type 0 where
  same : IsQuiet old old
  more :
      {log : List Event} (e : Event) → is_quiet e ≡ true → IsQuiet old log → IsQuiet old (e ∷ log)

pub IsQuiet-trans : {a b c : List Event} → IsQuiet a b → IsQuiet b c → IsQuiet a c
IsQuiet-trans h same = h
IsQuiet-trans h (more e q k) = more e q (IsQuiet-trans h k)

pub outcome_of-IsQuiet : {a b : List Event} → IsQuiet a b → outcome_of b ≡ outcome_of a
outcome_of-IsQuiet same = refl
outcome_of-IsQuiet (more e q h) = outcome_of-quiet e _ q ∙ outcome_of-IsQuiet h

pub admission_of-IsQuiet : {a b : List Event} → IsQuiet a b → admission_of b ≡ admission_of a
admission_of-IsQuiet same = refl
admission_of-IsQuiet (more e q h) = admission_of-quiet e _ q ∙ admission_of-IsQuiet h

pub dispatches-IsQuiet :
    {a b : List Event} → IsQuiet a b → any_row is_dispatch b ≡ any_row is_dispatch a
dispatches-IsQuiet same = refl
dispatches-IsQuiet (more e q h) = rw (is_dispatch-quiet e q) (dispatches-IsQuiet h)

pub Mem-IsQuiet : {a b : List Event} {e : Event} → IsQuiet a b → Memᴰ e a → Memᴰ e b
Mem-IsQuiet same m = m
Mem-IsQuiet (more e q h) m = Memᴰ.tail (Mem-IsQuiet h m)

-- These calls stand in the log in this order, the newest first, with others between them.
abbrev pub InOrder : (calls log : List Event) → Type 0
InOrder calls log = Sublistᴰ calls log

pub Mem-InOrder :
    {e : Event} {calls log : List Event} → InOrder calls log → Memᴰ e calls → Memᴰ e log
Mem-InOrder Sublistᴰ.slnil m = m
Mem-InOrder (Sublistᴰ.cons h) m = Memᴰ.tail (Mem-InOrder h m)
Mem-InOrder (Sublistᴰ.cons-cons here h) (Memᴰ.head there) = Memᴰ.head (there ∙ here)
Mem-InOrder (Sublistᴰ.cons-cons here h) (Memᴰ.tail m) = Memᴰ.tail (Mem-InOrder h m)

pub InOrder-newest :
    {calls log : List Event} (e : Event) → InOrder calls log → InOrder (e ∷ calls) (e ∷ log)
InOrder-newest e h = Sublistᴰ.cons-cons refl h

pub InOrder-Mem : {e : Event} {log : List Event} → Memᴰ e log → InOrder (e ∷ []) log
InOrder-Mem (Memᴰ.head here) = Sublistᴰ.cons-cons here (nil-sublist _)
InOrder-Mem (Memᴰ.tail m) = Sublistᴰ.cons (InOrder-Mem m)

pub InOrder-IsQuiet : {calls a b : List Event} → IsQuiet a b → InOrder calls a → InOrder calls b
InOrder-IsQuiet same h = h
InOrder-IsQuiet (more e q k) h = Sublistᴰ.cons (InOrder-IsQuiet k h)

-- Every event had what it needs in the log when it came.
abbrev pub Causal {ℓ} : (Event → List Event → Type ℓ) → List Event → Type ℓ
Causal Needs [] = Unit
Causal Needs (e ∷ log) = Needs e log × Causal Needs log

pub Causal-IsQuiet {ℓ} :
    (Needs : Event → List Event → Type ℓ)
    → ((e : Event) (log : List Event) → is_quiet e ≡ true → Needs e log)
    → {a b : List Event} → IsQuiet a b
    → Causal Needs a
    → Causal Needs b
Causal-IsQuiet Needs free same h = h
Causal-IsQuiet Needs free (more e q k) h = (free e _ q, Causal-IsQuiet Needs free k h)

-- The variables are as they were, and the log grew by quiet calls.
pub record Quiet {ℓ} {S : Type ℓ} (r r' : Run S) : Type ℓ where
  pub locals_same : r'.locals ≡ r.locals
  pub quiet : IsQuiet r.log r'.log

pub Quiet-refl {ℓ} : {S : Type ℓ} (r : Run S) → Quiet r r
Quiet-refl r = record { locals_same = refl; quiet = same }

pub Quiet-trans {ℓ} : {S : Type ℓ} {a b c : Run S} → Quiet a b → Quiet b c → Quiet a c
Quiet-trans h k = record {
  locals_same = k.locals_same ∙ h.locals_same;
  quiet = IsQuiet-trans h.quiet k.quiet;
}

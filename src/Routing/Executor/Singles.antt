-- ===== src/Routing/Executor/Singles.antt =====
-- The calls of the provider in a run of the executor, and the admission behind them.
use mathlib.Core.List.{Memᴰ}
use memory_server_worker.Prelude.{
  ◌≤◌, String, true, false, List, [], ◌∷◌, count_rows, any_row, ok, ◌≡◌, refl, ◌∙◌, ap, arith,
  Bool-cases, inl, inr,
}
use memory_server_worker.Routing.SpaceLedger.Inputs.{AdmitInput, Ticket}
use memory_server_worker.Routing.Executor.Requests.{IngestInput, Input, ingest_request}
use memory_server_worker.Routing.Executor.Ports.{Event, admits, ingests, recalls, Config}
use memory_server_worker.Routing.Executor.Answers.{Externals}
use memory_server_worker.Routing.Executor.Traces.{is_dispatch, Causal, Mem-InOrder}
use memory_server_worker.Routing.Executor.Clearance.{Needs}

pub count_rows-none :
    (l : List Event) → any_row is_dispatch l ≡ false → count_rows is_dispatch l ≡ 0
count_rows-none [] h = refl
count_rows-none (f ∷ l) h = ground (arith, count_rows-none l)

module _ (x : Externals) (config : Config) (token : String) where
  -- A call of the provider in a log that has what it needs.
  Needs-single :
      (input : Input) (e : Event) (log : List Event)
      → Needs x config token input e log
      → is_dispatch e ≡ true
      → any_row is_dispatch log ≡ false
  Needs-single input e log needs h =
      elim e
          as (λ e.
            Needs x config token input e log
            → is_dispatch e ≡ true
            → any_row is_dispatch log ≡ false) [
              | ingests p ms session d result ↦ λ (v, same, content, cleared) h. cleared.single
              | recalls p q d result ↦ λ (v, same, content, cleared) h. cleared.single
              | _ ↦ λ needs h. absurd (ground arith)
            ]
        needs h

  -- The provider is called at most once in a run.
  pub dispatches_le :
      (input : Input) (log : List Event)
      → Causal (Needs x config token input) log
      → count_rows is_dispatch log ≤ 1
  dispatches_le input [] causal = omega arith
  dispatches_le input (e ∷ log) (needs, causal) = elim (Bool-cases (is_dispatch e)) [
    | inl hit ↦
        let none_before = count_rows-none log (Needs-single input e log needs hit) in
        ground (arith, hit, none_before)
    | inr miss ↦ ground (arith, miss, dispatches_le input log causal)
  ]

  -- The admission that a call of the provider had before it.
  pub record IsAdmitted (v : IngestInput) (log : List Event) : Type 0 where
    pub request : AdmitInput
    pub ticket : Ticket
    pub admitted : Memᴰ (admits request (ok ticket)) log
    pub named : request.operation_id ≡ v.operation_id
    pub fresh : ticket.may_dispatch ≡ true

  IsAdmitted-more :
      {v : IngestInput} {log : List Event} (e : Event) → IsAdmitted v log → IsAdmitted v (e ∷ log)
  IsAdmitted-more e h = record {
    request = h.request;
    ticket = h.ticket;
    admitted = Memᴰ.tail h.admitted;
    named = h.named;
    fresh = h.fresh;
  }

  Needs-IsAdmitted :
      (v : IngestInput) (e : Event) (log : List Event)
      → Needs x config token (ingest_request v) e log
      → is_dispatch e ≡ true
      → IsAdmitted v log
  Needs-IsAdmitted v e log needs h =
      elim e
          as (λ e.
            Needs x config token (ingest_request v) e log
            → is_dispatch e ≡ true
            → IsAdmitted v log) [
              | ingests p ms session d result ↦ λ (v', same, content, cleared) h.
                  let same_input : v' ≡ v = ground arith in
                  record {
                    request = _;
                    ticket = cleared.ticket;
                    admitted =
                        Mem-InOrder cleared.steps
                          (Memᴰ.tail (Memᴰ.tail (Memᴰ.tail (Memᴰ.tail (Memᴰ.head refl)))));
                    named = cleared.named ∙ ap (λ (w : IngestInput). w.operation_id) same_input;
                    fresh = cleared.fresh;
                  }
              | recalls p q d result ↦ λ (v', same, content, cleared) h. absurd (ground arith)
              | _ ↦ λ needs h. absurd (ground arith)
            ]
        needs h

  pub dispatched-IsAdmitted :
      (v : IngestInput) (log : List Event)
      → Causal (Needs x config token (ingest_request v)) log
      → any_row is_dispatch log ≡ true
      → IsAdmitted v log
  dispatched-IsAdmitted v [] causal h = absurd (ground arith)
  dispatched-IsAdmitted v (e ∷ log) (needs, causal) h = elim (Bool-cases (is_dispatch e)) [
    | inl hit ↦ IsAdmitted-more e (Needs-IsAdmitted v e log needs hit)
    | inr miss ↦ IsAdmitted-more e (dispatched-IsAdmitted v log causal (ground arith))
  ]

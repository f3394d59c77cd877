-- ===== src/Routing/Executor/Disclosure.antt =====
-- What precedes an answer of the executor that shows what the provider gave.
use mathlib.Core.List.{Memᴰ}
use memory_server_worker.Prelude.{
  ℕ, ◌<◌, String, Bool, true, false, Option, List, [], ◌∷◌, take, any_row, ok, ◌≡◌, refl,
}
use memory_server_worker.Routing.SpaceLedger.Rows.{State, accepted}
use memory_server_worker.Routing.SpaceLedger.Inputs.{FinalizeInput, Ticket, disclose}
use memory_server_worker.Routing.Executor.Requests.{
  Message, Input, ingest_request, search_request, clear_request, usage_request, kind_of, space_of,
}
use memory_server_worker.Routing.Executor.Ports.{
  Authority, Recall, Event, clock_read, signal_read, authority_asked, checks, finalizes, ingests,
  recalls, Config,
}
use memory_server_worker.Routing.Executor.Answers.{ingest_body, search_body, error_body, Body}
use memory_server_worker.Routing.Executor.Admission.{has_changed}
use memory_server_worker.Routing.Executor.Dispatching.{
  Exchange, ingestion, question, input_of, check_input,
}
use memory_server_worker.Routing.Executor.Execution.{identity_of}
use memory_server_worker.Routing.Executor.Traces.{is_dispatch, outcome_of, InOrder}

abbrev pub is_content : Body → Bool
is_content (ingest_body operation_id session) = true
is_content (search_body operation_id answer candidates count) = true
is_content _ = false

-- An error says which outcome the log tells, and that the provider was called if it was.
abbrev pub Tells : Body → List Event → Type 0
Tells (error_body error operation_id state provider_dispatched retirement) log =
    (state ≡ outcome_of log) × (any_row is_dispatch log ≡ true → provider_dispatched ≡ true)
Tells _ log = Unit

-- The body shows what the provider returned in this run.
abbrev pub Shows : Body → List Event → Type 0
Shows (ingest_body operation_id session) log =
    (profile : String) × (messages : List Message) × (deadline_ms : ℕ) × Memᴰ
      (ingests profile messages session deadline_ms (ok tt)) log
Shows (search_body operation_id answer candidates count) log =
    (profile : String) × (query : String) × (deadline_ms : ℕ) × (found : Recall) × (n : ℕ) × Memᴰ
      (recalls profile query deadline_ms (ok found)) log
    × (answer ≡ found.answer)
    × (candidates ≡ take n found.candidates)
    × (count ≡ found.count)
Shows _ log = ⊥

module _ (config : Config) (token : String) (e : Exchange) where
  -- The last three calls of the run are the check of the ticket, the signal and the clock; before
  -- them the outcome was recorded, and behind that record the authority was asked again.
  pub record IsClosing (log : List Event) : Type 0 where
    pub first : Authority
    pub last : Authority
    pub ticket : Ticket
    pub now : ℕ
    pub earlier : List Event
    pub closing :
        log
        ≡ clock_read now
          ∷ signal_read false
          ∷ checks (check_input first last (identity_of config first) ticket disclose) (ok tt)
          ∷ earlier
    pub ticket_lives : now < ticket.expires_at_ms
    pub authority_lives : now < last.authority_expires_at_ms
    pub policy_lives : now < config.budget_policy.valid_until_ms
    pub unchanged : has_changed (input_of e) first last ≡ false
    pub outcome : FinalizeInput
    pub outcome_ticket : outcome.ticket_id ≡ ticket.id
    pub outcome_state : outcome.state ≡ accepted
    pub refreshed :
        InOrder
          (authority_asked token (space_of (input_of e)) (kind_of (input_of e)) (ok last)
            ∷ finalizes outcome (ok tt)
            ∷ [])
          earlier

  abbrev pub Discloses : Body → List Event → Type 0
  Discloses (ingest_body operation_id session) log =
      Shows (ingest_body operation_id session) log × IsClosing log
  Discloses (search_body operation_id answer candidates count) log =
      Shows (search_body operation_id answer candidates count) log × IsClosing log
  Discloses body log = Tells body log

  pub Discloses-intro :
      (body : Body) (log : List Event) → Shows body log → IsClosing log → Discloses body log
  Discloses-intro body log shows closing =
      elim body as (λ b. Shows b log → Discloses b log) [
        | ingest_body operation_id session ↦ λ s. (s, closing)
        | search_body operation_id answer candidates count ↦ λ s. (s, closing)
        | _ ↦ λ s. absurd s
      ]
        shows

-- What an answer to a request may say: the content of an exchange only behind its checks, nothing of
-- the kind for another request, and the truth about the outcome.
abbrev pub Justified : Config → (token : String) → Input → Body → List Event → Type 0
Justified config token (ingest_request v) body log = Discloses config token (ingestion v) body log
Justified config token (search_request v) body log = Discloses config token (question v) body log
Justified config token (clear_request v) body log = (is_content body ≡ false) × Tells body log
Justified config token (usage_request v) body log = (is_content body ≡ false) × Tells body log

pub Justified-error :
    (config : Config) (token : String) (input : Input) (error : String)
    (operation_id : Option String) (state : State) (provider_dispatched : Bool)
    (retirement : Option (Bool × Bool)) (log : List Event)
    → Tells (error_body error operation_id state provider_dispatched retirement) log
    → Justified config token input
        (error_body error operation_id state provider_dispatched retirement)
        log
Justified-error config token (ingest_request v) c o s d r log h = h
Justified-error config token (search_request v) c o s d r log h = h
Justified-error config token (clear_request v) c o s d r log h = (refl, h)
Justified-error config token (usage_request v) c o s d r log h = (refl, h)

-- More calls show the same.
pub Shows-more :
    (body : Body) {old new : List Event}
    → ((e : Event) → Memᴰ e old → Memᴰ e new)
    → Shows body old
    → Shows body new
Shows-more body {old} {new} keeps shows =
    elim body as (λ b. Shows b old → Shows b new) [
      | ingest_body operation_id session ↦ λ (p, ms, d, m). (p, ms, d, keeps _ m)
      | search_body operation_id answer candidates count ↦
          λ (p, q, d, found, n, m, same, first_ones, counted).
            (p, q, d, found, n, keeps _ m, same, first_ones, counted)
      | _ ↦ λ s. absurd s
    ]
      shows

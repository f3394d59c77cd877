-- ===== src/Routing/Executor/Dispatches.antt =====
-- The call of the provider by the executor leaves a sound run, whatever the provider gives.
use mathlib.Core.List.{Memᴰ}
use memory_server_worker.Prelude.{
  ℕ, String, true, false, some, ◌∷◌, any_row, ok, ◌≡◌, refl, sym, ◌∙◌, ap, arith,
}
use memory_server_worker.Prelude.Actions.{After}
use memory_server_worker.Routing.SpaceLedger.Rows.{Identity, accepted}
use memory_server_worker.Routing.SpaceLedger.Inputs.{AdmitInput, Ticket}
use memory_server_worker.Routing.Executor.Ports.{
  Authority, Ports, Event, admits, Locals, Run, Config,
}
use memory_server_worker.Routing.Executor.Answers.{Body, Answer, Externals}
use memory_server_worker.Routing.Executor.Dispatching.{
  Exchange, ingestion, question, input_of, pending_state, replay, call_provider,
}
use memory_server_worker.Routing.Executor.Traces.{outcome_of, admission_of}
use memory_server_worker.Routing.Executor.Calls.{perform-then, return-After}
use memory_server_worker.Routing.Executor.Clearance.{is_outcome, IsCleared, Needs, IsSound}
use memory_server_worker.Routing.Executor.Steps.{Sound, fresh-then}
use memory_server_worker.Routing.Executor.Disclosure.{Shows, Discloses}

module _ {ℓ} {S : Type ℓ} (x : Externals) (config : Config) (token : String) (ports : Ports S)
    (e : Exchange) (first : Authority) where
  abbrev pub Fine : Run S → Type ℓ
  Fine = Sound x config token (input_of e) ports

  -- What the branch leaves where it returns.
  pub record IsAnswered (a : Answer) (s : Run S) : Type ℓ where
    pub sound : Fine s
    pub discloses : Discloses config token e a.body s.log
    pub attempted :
        (t : Ticket)
        → s.locals.ticket ≡ some t
        → t.may_dispatch ≡ true
        → any_row is_outcome s.log ≡ true

  pub replay-After :
      (operation_id : String) (ticket : Ticket) (r : Run S)
      → Fine r
      → r.locals.ticket ≡ some ticket
      → ticket.may_dispatch ≡ false
      → After IsAnswered Fine (replay x config ports token e first operation_id ticket r)
  unfolding replay
  replay-After operation_id ticket r h has spent =
      fresh-then x config token (input_of e) ports IsAnswered first _ r h (λ current s h1 fresh.
        return-After Fine IsAnswered _ s (record {
          sound = h1;
          discloses = tt;
          attempted = λ t k may.
              let same : some ticket ≡ some t =
                sym has ∙ sym (ap (λ l. l.ticket) fresh.quiet.locals_same) ∙ k in
              absurd (ground arith);
        }))

  -- The provider returned: once `terminal` says so, the run is sound again.
  pub record IsCalled (ticket : Ticket) (output : Body) (s : Run S) : Type ℓ where
    pub sound : Fine (record s { locals = record s.locals { terminal = accepted } })
    pub shows : Shows output s.log
    pub tells : outcome_of s.log ≡ accepted
    pub ticket_same : s.locals.ticket ≡ some ticket

  abbrev going : Run S → Run S
  going r = record r { locals = record r.locals { dispatched = true; terminal = pending_state e } }

-- What a run is like behind the call of the provider, whatever it gave.
called-IsSound {ℓ} :
    {S : Type ℓ} (x : Externals) (config : Config) (token : String) (e : Exchange) (r : Run S)
    (w : S) (call : Event) (l : Locals)
    → IsSound x config token (input_of e) r
    → Needs x config token (input_of e) call r.log
    → admission_of (call ∷ r.log) ≡ admission_of r.log
    → is_outcome call ≡ false
    → l.terminal ≡ outcome_of (call ∷ r.log)
    → l ≡ record r.locals { dispatched = true; terminal = l.terminal }
    → IsSound x config token (input_of e) (record r { world = w; locals = l; log = call ∷ r.log })
called-IsSound x config token e r w call l h needs kept other truthful same = record {
  causal = (needs, h.causal);
  truthful = truthful;
  filed = rw (kept, same) h.filed;
  owned = rw same h.owned;
  settled = rw (same, other) h.settled;
  shown = λ k. rw same refl;
}

pub admitted-IsSound {ℓ} :
    {S : Type ℓ} (x : Externals) (config : Config) (token : String) (e : Exchange) (s : Run S)
    (w : S) (v : AdmitInput) (ticket : Ticket) (first : Authority) (identity : Identity)
    → IsSound x config token (input_of e) s
    → s.locals.first ≡ some first
    → s.locals.identity ≡ some identity
    → IsSound x config token (input_of e) (record s {
      world = w;
      locals = record s.locals { ticket = some ticket };
      log = admits v (ok ticket) ∷ s.log;
    })
unfolding outcome_of admission_of
admitted-IsSound x config token e s w v ticket first identity h is_first is_identity = record {
  causal = (tt, h.causal);
  truthful = h.truthful;
  filed = refl;
  owned = λ t k. (first, identity, is_first, is_identity);
  settled = h.settled;
  shown = h.shown;
}

module _ {ℓ} {S : Type ℓ} (x : Externals) (config : Config) (token : String) (ports : Ports S)
    (first : Authority) (ticket : Ticket) (operation_id profile : String) (deadline_ms : ℕ) where
  pub call_provider-After :
      (e : Exchange) (r : Run S)
      → Fine x config token ports e first r
      → r.locals.ticket ≡ some ticket
      → IsCleared x config token e profile deadline_ms r.log
      → After (IsCalled x config token ports e first ticket) (Fine x config token ports e first) (
          call_provider x config ports token e operation_id profile deadline_ms
            (going x config token ports e first r))
  unfolding call_provider outcome_of admission_of
  call_provider-After (ingestion v) r h has cleared =
      perform-then (Fine x config token ports (ingestion v) first)
        (IsCalled x config token ports (ingestion v) first ticket) _ _ _
        (going x config token ports (ingestion v) first r)
        (λ a w k.
          return-After (Fine x config token ports (ingestion v) first)
            (IsCalled x config token ports (ingestion v) first ticket) _ _
            (record {
              sound =
                  called-IsSound x config token (ingestion v) r w _ _ h (v, refl, refl, cleared)
                    refl refl refl refl;
              shows = (_, _, _, Memᴰ.head refl);
              tells = refl;
              ticket_same = has;
            }))
        (λ f w k.
          called-IsSound x config token (ingestion v) r w _ _ h (v, refl, refl, cleared) refl refl
            refl refl)
  call_provider-After (question v) r h has cleared =
      perform-then (Fine x config token ports (question v) first)
        (IsCalled x config token ports (question v) first ticket) _ _ _
        (going x config token ports (question v) first r)
        (λ found w k.
          return-After (Fine x config token ports (question v) first)
            (IsCalled x config token ports (question v) first ticket) _ _
            (record {
              sound =
                  called-IsSound x config token (question v) r w _ _ h (v, refl, refl, cleared) refl
                    refl refl refl;
              shows = (_, _, _, found, _, Memᴰ.head refl, refl, refl, refl);
              tells = refl;
              ticket_same = has;
            }))
        (λ f w k.
          called-IsSound x config token (question v) r w _ _ h (v, refl, refl, cleared) refl refl
            refl refl)

-- ===== src/Routing/Executor/Identifying.antt =====
-- The first authority of a run of the executor, and what a safe run is.
use mathlib.Core.List.{Memᴰ, Sublistᴰ}
use memory_server_worker.Prelude.{
  String, true, false, none, some, [], ◌∷◌, any_row, ok, ◌≡◌, refl, sym, ◌∙◌, ap, arith,
}
use memory_server_worker.Prelude.Actions.{After, After-throw_if}
use memory_server_worker.Routing.SpaceLedger.Inputs.{Ticket}
use memory_server_worker.Routing.Executor.Requests.{Input, kind_of, space_of}
use memory_server_worker.Routing.Executor.Ports.{
  Authority, Ports, clock_read, authority_asked, Locals, Run, Config,
}
use memory_server_worker.Routing.Executor.Answers.{Answer, Externals}
use memory_server_worker.Routing.Executor.Dispatching.{Exchange, input_of}
use memory_server_worker.Routing.Executor.Execution.{identity_of, identify}
use memory_server_worker.Routing.Executor.Traces.{
  is_dispatch, admission_of, InOrder, InOrder-Mem, InOrder-IsQuiet,
}
use memory_server_worker.Routing.Executor.Calls.{assign-then, return-After, IsLive-Quiet}
use memory_server_worker.Routing.Executor.Clearance.{is_outcome}
use memory_server_worker.Routing.Executor.Steps.{Sound, live-then, reads-then, asks-then}
use memory_server_worker.Routing.Executor.Disclosure.{Justified}

module _ {ℓ} {S : Type ℓ} (x : Externals) (config : Config) (token : String) (ports : Ports S)
    (input : Input) where
  abbrev Fine : Run S → Type ℓ
  Fine = Sound x config token input ports

  -- An admitted request has a record of its outcome, or an attempt at one.
  abbrev pub Attempted : Run S → Type 0
  Attempted s =
      (e : Exchange)
      → input ≡ input_of e
      → (t : Ticket) → admission_of s.log ≡ some t
      → t.may_dispatch ≡ true
      → any_row is_outcome s.log ≡ true

  pub record IsSafe (out : Answer × Run S) : Type ℓ where
    pub sound : Fine out.1
    pub justified : Justified config token input out.0.body out.1.log
    pub attempted : Attempted out.1

  -- Before a ticket, the first authority and the identity may be set.
  unticketed-IsSound :
      (l : Locals) (r : Run S)
      → Fine r
      → r.locals.ticket ≡ none
      → l.ticket ≡ none
      → l.terminal ≡ r.locals.terminal
      → l.recorded ≡ r.locals.recorded
      → l.dispatched ≡ r.locals.dispatched
      → Fine (record r { locals = l })
  unticketed-IsSound l r h was is terminal recorded dispatched = record {
    causal = h.causal;
    truthful = terminal ∙ h.truthful;
    filed = is ∙ sym was ∙ h.filed;
    owned = λ t k. absurd (ground arith);
    settled = λ k. h.settled (sym recorded ∙ k);
    shown = λ k. dispatched ∙ h.shown k;
  }

  pub record IsIdentified (first : Authority) (s : Run S) : Type ℓ where
    pub sound : Fine s
    pub is_first : s.locals.first ≡ some first
    pub is_identity : s.locals.identity ≡ some (identity_of config first)
    pub calm : any_row is_dispatch s.log ≡ false
    pub asked :
        InOrder (authority_asked token (space_of input) (kind_of input) (ok first) ∷ []) s.log

  pub identify-After :
      (r : Run S)
      → Fine r
      → r.locals.ticket ≡ none
      → any_row is_dispatch r.log ≡ false
      → After IsIdentified Fine (identify x config ports token input r)
  unfolding identify
  identify-After r h fresh calm =
      asks-then x config token input ports IsIdentified _ _ _ r (λ result. refl) h
        (λ first w h1 q1. assign-then Fine IsIdentified _ _ _ (
          live-then x config token input ports IsIdentified _ _
            (unticketed-IsSound _ _ h1 fresh fresh refl refl refl)
            (λ s h2 live. After-throw_if Fine IsIdentified _ _ _ s h2 (λ matching.
              reads-then x config token input ports IsIdentified ports.clock clock_read _ s
                (λ now. refl) h2
                (λ now w3 h3 q3. After-throw_if Fine IsIdentified _ _ _ _ h3 (λ timely.
                  let ticketless = ap (λ l. l.ticket) live.locals_same ∙ fresh in
                  assign-then Fine IsIdentified _ _ _ (
                    return-After Fine IsIdentified first _ (record {
                      sound = unticketed-IsSound _ _ h3 ticketless ticketless refl refl refl;
                      is_first = ap (λ l. l.first) live.locals_same;
                      is_identity = refl;
                      calm = rw live.log calm;
                      asked = Sublistᴰ.cons (
                          InOrder-IsQuiet (IsLive-Quiet live).quiet (InOrder-Mem (Memᴰ.head refl)));
                    }))))))))

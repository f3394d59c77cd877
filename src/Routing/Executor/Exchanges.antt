-- ===== src/Routing/Executor/Exchanges.antt =====
-- The branch of the executor that calls the provider leaves a sound run, and an answer that shows
-- what the provider gave only behind the checks of `Disclosure`.
use mathlib.Core.List.{Memᴰ}
use memory_server_worker.Prelude.{
  ◌≤◌, String, true, false, some, [], ◌∷◌, any_row, ok, ◌≡◌, refl, ◌∙◌, ap, arith,
}
use memory_server_worker.Prelude.Actions.{
  After, After-continue, After-throw_if, After-then, After-if,
}
use memory_server_worker.Routing.SpaceLedger.Rows.{accepted}
use memory_server_worker.Routing.SpaceLedger.Inputs.{FinalizeInput, Ticket}
use memory_server_worker.Routing.Executor.Ports.{
  Authority, Ports, authority_asked, admits, finalizes, Run, Config,
}
use memory_server_worker.Routing.Executor.Requests.{kind_of, space_of}
use memory_server_worker.Routing.Executor.Answers.{Body, Answer, Externals}
use memory_server_worker.Routing.Executor.Admission.{expiry_of, space_outcome, admission_deadline}
use memory_server_worker.Routing.Executor.Dispatching.{
  Exchange, input_of, admit_input, disclose_output, dispatch_ticket, exchange,
}
use memory_server_worker.Routing.Executor.Execution.{identity_of}
use memory_server_worker.Routing.Executor.Traces.{
  is_dispatch, outcome_of, admission_of, IsQuiet-trans, Mem-IsQuiet, InOrder, InOrder-newest,
  InOrder-Mem, InOrder-IsQuiet, dispatches-IsQuiet,
}
use memory_server_worker.Routing.Executor.Calls.{
  perform-then, assign-then, return-After, IsLive-Quiet, IsTimely-Quiet,
}
use memory_server_worker.Routing.Executor.Clearance.{
  is_outcome, outcomes-IsQuiet, Names, IsCleared, IsSound-assign,
}
use memory_server_worker.Routing.Executor.Steps.{live-then, timely-then, fresh-then, asks-then}
use memory_server_worker.Routing.Executor.Settling.{IsFinal, HasWritten, finalize-After}
use memory_server_worker.Routing.Executor.Disclosure.{Shows, IsClosing, Discloses-intro, Shows-more}
use memory_server_worker.Routing.Executor.Reserving.{
  IsReserved, reserve-After, IsReady, clear_to_dispatch-After,
}
use memory_server_worker.Routing.Executor.Dispatches.{
  Fine, IsAnswered, replay-After, IsCalled, admitted-IsSound, call_provider-After,
}

module _ {ℓ} {S : Type ℓ} (x : Externals) (config : Config) (token : String) (ports : Ports S)
    (e : Exchange) (first : Authority) where
  abbrev Fair : Run S → Type ℓ
  Fair = Fine x config token ports e first

  abbrev Answered : Answer → Run S → Type ℓ
  Answered = IsAnswered x config token ports e first

  disclose_output-After :
      (current : Authority) (ticket : Ticket) (output : Body) (v : FinalizeInput) (r : Run S)
      → Fair r
      → Shows output r.log
      → Memᴰ (finalizes v (ok tt)) r.log
      → any_row is_outcome r.log ≡ true
      → v.ticket_id ≡ ticket.id
      → v.state ≡ accepted
      → After Answered Fair (
          disclose_output x config ports token e first current
            (identity_of config first)
            ticket
            output
            r)
  unfolding disclose_output admission_deadline
  disclose_output-After current ticket output v r h shows written tried of_ticket is_accepted =
      let input = input_of e in
      timely-then x config token input ports Answered ticket current.authority_expires_at_ms _ r h
        (λ s1 h1 t1. After-throw_if Fair Answered _ _ _ s1 h1 (λ small.
          fresh-then x config token input ports Answered first _ s1 h1 (λ last s2 h2 fresh.
            let expires = last.authority_expires_at_ms in
            timely-then x config token input ports Answered ticket expires _ s2 h2 (λ s3 h3 t3.
              asks-then x config token input ports Answered _ _ _ s3 (λ result. refl) h3
                (λ a w4 h4 q4.
                  timely-then x config token input ports Answered ticket expires _ _ h4 (λ s5 h5 t5.
                    let behind =
                      IsQuiet-trans (IsTimely-Quiet t1).quiet
                        (IsQuiet-trans fresh.quiet.quiet (IsTimely-Quiet t3).quiet) in
                    let all =
                      IsQuiet-trans behind (IsQuiet-trans q4.quiet (IsTimely-Quiet t5).quiet) in
                    let closing : IsClosing config token e s5.log = record {
                      first = first;
                      last = last;
                      ticket = ticket;
                      now = t5.now;
                      earlier = s3.log;
                      closing = t5.log;
                      ticket_lives = ground (arith, t5.before);
                      authority_lives = ground (arith, t5.before);
                      policy_lives = ground (arith, t5.before);
                      unchanged = fresh.unchanged;
                      outcome = v;
                      outcome_ticket = of_ticket;
                      outcome_state = is_accepted;
                      refreshed = InOrder-IsQuiet (IsTimely-Quiet t3).quiet (
                          fresh.asked _
                            (InOrder-IsQuiet (IsTimely-Quiet t1).quiet (InOrder-Mem written)));
                    } in
                    return-After Fair Answered _ s5 (record {
                      sound = h5;
                      discloses =
                          Discloses-intro config token e output s5.log
                            (Shows-more output (λ f m. Mem-IsQuiet all m) shows) closing;
                      attempted = λ t k may. outcomes-IsQuiet all ∙ tried;
                    })))))))

  module _ (operation_id : String) (names : Names e operation_id) (ticket : Ticket)
      (may : ticket.may_dispatch ≡ true) where
    dispatch_ticket-After :
        (r : Run S)
        → Fair r
        → r.locals.ticket ≡ some ticket
        → any_row is_dispatch r.log ≡ false
        → InOrder
            (admits (admit_input x e first (identity_of config first) operation_id) (ok ticket)
              ∷ authority_asked token (space_of (input_of e)) (kind_of (input_of e)) (ok first)
              ∷ [])
            r.log
        → After Answered Fair (
            dispatch_ticket x config ports token e first
              (identity_of config first)
              operation_id
              ticket
              r)
    unfolding dispatch_ticket admission_deadline
    dispatch_ticket-After r h has calm admitted =
        After-continue Fair (IsReserved x config token ports e first ticket r) Answered _ _
          (reserve-After x config token ports e first ticket r h)
          (λ reservation s res.
            After-continue Fair (IsReady x config token ports e first ticket s) Answered _ _
              (clear_to_dispatch-After x config token ports e first ticket s res.sound)
              (λ cleared t ready.
                let quiet = IsQuiet-trans res.quiet ready.quiet.quiet in
                let lasting : cleared.1 ≤ expiry_of s.locals.reservation =
                  ground (arith, ready.covered) in
                let is_cleared : IsCleared x config token e _ cleared.1 t.log = record {
                  first = first;
                  current = cleared.0;
                  operation_id = operation_id;
                  named = names;
                  ticket = ticket;
                  reservation = reservation;
                  fresh = may;
                  unspent = res.unspent;
                  own_reservation = res.own;
                  unchanged = ready.unchanged;
                  own_profile = refl;
                  now = ready.now;
                  steps = ready.steps _ (res.reserved _ admitted);
                  ahead = ready.ahead;
                  ticket_covers = ground (arith, ready.covered);
                  authority_covers = ground (arith, ready.covered);
                  reservation_covers = rw res.held at lasting;
                  policy_covers = ground (arith, ready.covered);
                  single = dispatches-IsQuiet quiet ∙ calm;
                } in
                assign-then Fair Answered _ _ t (
                  After-continue Fair (IsCalled x config token ports e first ticket) Answered _ _
                    (call_provider-After x config token ports first ticket operation_id _ cleared.1
                      e t ready.sound
                      (ap (λ l. l.ticket) ready.quiet.locals_same ∙ res.ticket_same ∙ has)
                      is_cleared)
                    (λ output u called.
                      let done : Run S = record u {
                        locals = record u.locals { terminal = accepted };
                      } in
                      assign-then Fair Answered _ _ u (
                        After-then Fair
                          (λ _ s'.
                            IsFinal x config token (input_of e) done s'
                            × HasWritten x config token (input_of e) done s')
                          (IsFinal x config token (input_of e) done) Answered _ _
                          (finalize-After x config token (input_of e) ports done called.sound)
                          (λ s' final. final.later.sound)
                          (λ a s' (final, written).
                            let (f, i, m) = written ticket called.ticket_same may in
                            disclose_output-After cleared.0 ticket output
                              (space_outcome ticket f i done.locals) s' final.later.sound
                              (Shows-more output final.later.keeps called.shows) m
                              (final.attempted ticket called.ticket_same may) refl refl))))))

  pub exchange-After :
      (operation_id : String) (r : Run S)
      → Names e operation_id
      → Fair r
      → r.locals.first ≡ some first
      → r.locals.identity ≡ some (identity_of config first)
      → any_row is_dispatch r.log ≡ false
      → InOrder
          (authority_asked token (space_of (input_of e)) (kind_of (input_of e)) (ok first) ∷ [])
          r.log
      → After Answered Fair
          (exchange x config ports token e first (identity_of config first) operation_id r)
  unfolding exchange admission_of outcome_of
  exchange-After operation_id r names h is_first is_identity calm asked =
      assign-then Fair Answered _ _ r (
        live-then x config token (input_of e) ports Answered _ _
          (IsSound-assign x config token (input_of e) _ h refl refl refl refl refl (λ k. k))
          (λ s h1 live.
            let calm1 = dispatches-IsQuiet (IsLive-Quiet live).quiet ∙ calm in
            perform-then Fair Answered _ _ _ s
              (λ ticket w k. assign-then Fair Answered _ _ _ (
                let h2 =
                  admitted-IsSound x config token e s w _ ticket first (identity_of config first) h1
                    (ap (λ l. l.first) live.locals_same ∙ is_first)
                    (ap (λ l. l.identity) live.locals_same ∙ is_identity) in
                live-then x config token (input_of e) ports Answered _ _ h2 (λ t h3 live'.
                  After-if Fair Answered ticket.may_dispatch _ _ t
                    (λ may.
                      dispatch_ticket-After operation_id names ticket may t h3
                        (ap (λ l. l.ticket) live'.locals_same)
                        (dispatches-IsQuiet (IsLive-Quiet live').quiet ∙ calm1)
                        (InOrder-IsQuiet (IsLive-Quiet live').quiet
                          (InOrder-newest _ (InOrder-IsQuiet (IsLive-Quiet live).quiet asked))))
                    (λ spent.
                      replay-After x config token ports e first operation_id ticket t h3
                        (ap (λ l. l.ticket) live'.locals_same) spent))))
              (λ f w k. record {
                causal = (tt, h1.causal);
                truthful = h1.truthful;
                filed = h1.filed;
                owned = h1.owned;
                settled = h1.settled;
                shown = h1.shown;
              })))

-- ===== src/Routing/Executor/Reserving.antt =====
-- The reservation and the last checks of the executor leave a sound run, and give what the call of
-- the provider needs.
use memory_server_worker.Prelude.{
  ℕ, ◌<◌, ◌≤◌, String, false, some, List, ◌∷◌, string_eq, ok, ◌≡◌, refl, ◌∙◌, ap, arith,
}
use memory_server_worker.Prelude.Actions.{After, After-throw_if}
use memory_server_worker.Routing.Budget.Inputs.{Reservation}
use memory_server_worker.Routing.SpaceLedger.Inputs.{Ticket, dispatch}
use memory_server_worker.Routing.Executor.Requests.{kind_of, space_of}
use memory_server_worker.Routing.Executor.Ports.{
  Authority, Ports, Event, clock_read, authority_asked, checks, reserves, budget_key, Run, Config,
}
use memory_server_worker.Routing.Executor.Answers.{Externals}
use memory_server_worker.Routing.Executor.Admission.{has_changed, admission_deadline}
use memory_server_worker.Routing.Executor.Dispatching.{
  Exchange, input_of, reserve_input, check_input, reserve, clear_to_dispatch,
}
use memory_server_worker.Routing.Executor.Execution.{identity_of}
use memory_server_worker.Routing.Executor.Traces.{
  IsQuiet, IsQuiet-trans, InOrder, InOrder-newest, InOrder-IsQuiet, Quiet, Quiet-trans,
}
use memory_server_worker.Routing.Executor.Calls.{
  assign-then, get-then, return-After, IsLive-Quiet, IsTimely-Quiet,
}
use memory_server_worker.Routing.Executor.Clearance.{IsSound-assign}
use memory_server_worker.Routing.Executor.Steps.{
  Sound, live-then, timely-then, fresh-then, reads-then, asks-then,
}

module _ {ℓ} {S : Type ℓ} (x : Externals) (config : Config) (token : String) (ports : Ports S)
    (e : Exchange) (first : Authority) (ticket : Ticket) where
  abbrev Fine : Run S → Type ℓ
  Fine = Sound x config token (input_of e) ports

  pub record IsReserved (r : Run S) (reservation : Reservation) (s : Run S) : Type ℓ where
    pub sound : Fine s
    pub quiet : IsQuiet r.log s.log
    pub reserved :
        (calls : List Event)
        → InOrder calls r.log
        → InOrder
            (reserves
                (reserve_input x config e first (identity_of config first) ticket)
                (ok reservation)
              ∷ calls)
            s.log
    pub unspent : reservation.replayed ≡ false
    pub own :
        reservation.reservation_id ≡ x.digest (budget_key (identity_of config first) ticket.id)
    pub held : s.locals.reservation ≡ some reservation
    pub ticket_same : s.locals.ticket ≡ r.locals.ticket

  pub reserve-After :
      (r : Run S)
      → Fine r
      → After
          (IsReserved r)
          Fine
          (reserve x config ports token e first (identity_of config first) ticket r)
  unfolding reserve
  reserve-After r h =
      let expires = first.authority_expires_at_ms in
      timely-then x config token (input_of e) ports _ ticket expires _ r h (λ s h1 t1.
        assign-then Fine _ _ _ s (
          timely-then x config token (input_of e) ports _ ticket expires _ _
            (IsSound-assign x config token (input_of e) _ h1 refl refl refl refl refl (λ k. k))
            (λ s2 h2 t2. assign-then Fine _ _ _ s2 (
              asks-then x config token (input_of e) ports _ _ _ _ _ (λ result. refl)
                (IsSound-assign x config token (input_of e) _ h2 refl refl refl refl refl (λ k. k))
                (λ reservation w h3 q3. assign-then Fine _ _ _ _ (
                  live-then x config token (input_of e) ports _ _ _
                    (IsSound-assign x config token (input_of e) _ h3 refl refl refl refl refl
                      (λ k. k))
                    (λ s4 h4 live. After-throw_if Fine _ _ _ _ s4 h4 (λ matching.
                      reads-then x config token (input_of e) ports _ ports.clock clock_read _ s4
                        (λ now. refl) h4
                        (λ now w5 h5 q5. After-throw_if Fine _ _ _ _ _ h5 (λ lasting.
                          timely-then x config token (input_of e) ports _ ticket expires _ _ h5
                            (λ s6 h6 t6. return-After Fine (IsReserved r) reservation s6 (record {
                              sound = h6;
                              quiet = IsQuiet-trans (IsTimely-Quiet t1).quiet (
                                  IsQuiet-trans (IsTimely-Quiet t2).quiet (
                                    IsQuiet-trans q3.quiet (
                                      IsQuiet-trans (IsLive-Quiet live).quiet
                                        (IsQuiet-trans q5.quiet (IsTimely-Quiet t6).quiet))));
                              reserved = λ calls k.
                                  InOrder-IsQuiet
                                    (IsQuiet-trans (IsLive-Quiet live).quiet
                                      (IsQuiet-trans q5.quiet (IsTimely-Quiet t6).quiet))
                                    (InOrder-newest _ (
                                      InOrder-IsQuiet
                                        (IsQuiet-trans (IsTimely-Quiet t1).quiet
                                          (IsTimely-Quiet t2).quiet)
                                        k));
                              unspent = ground arith;
                              own = ground (
                                arith,
                                string_eq.beq_iff reservation.reservation_id
                                    (x.digest (budget_key (identity_of config first) ticket.id)),
                              );
                              held = ap (λ l. l.reservation) (t6.locals_same ∙ live.locals_same);
                              ticket_same =
                                  ap (λ l. l.ticket) (t6.locals_same ∙ live.locals_same)
                                  ∙ ap (λ l. l.ticket) t2.locals_same
                                  ∙ ap (λ l. l.ticket) t1.locals_same;
                            }))))))))))))

  pub record IsReady (r : Run S) (cleared : Authority × ℕ) (s : Run S) : Type ℓ where
    pub sound : Fine s
    pub quiet : Quiet r s
    pub unchanged : has_changed (input_of e) first cleared.0 ≡ false
    pub now : ℕ
    pub steps :
        (calls : List Event)
        → InOrder calls r.log
        → InOrder
            (clock_read now
              ∷ checks
                  (check_input first cleared.0 (identity_of config first) ticket dispatch)
                  (ok tt)
              ∷ authority_asked token (space_of (input_of e)) (kind_of (input_of e)) (ok cleared.0)
              ∷ calls)
            s.log
    pub ahead : now < cleared.1
    pub covered :
        cleared.1 ≤ admission_deadline config ticket r.locals cleared.0.authority_expires_at_ms

  pub clear_to_dispatch-After :
      (r : Run S)
      → Fine r
      → After
          (IsReady r)
          Fine
          (clear_to_dispatch x config ports token e first (identity_of config first) ticket r)
  unfolding clear_to_dispatch
  clear_to_dispatch-After r h =
      let expires = first.authority_expires_at_ms in
      let input = input_of e in
      timely-then x config token input ports _ ticket expires _ r h (λ s1 h1 t1.
        timely-then x config token input ports _ ticket expires _ s1 h1 (λ s2 h2 t2.
          fresh-then x config token input ports _ first _ s2 h2 (λ current s3 h3 fresh.
            let expires' = current.authority_expires_at_ms in
            timely-then x config token input ports _ ticket expires' _ s3 h3 (λ s4 h4 t4.
              asks-then x config token input ports _ _ _ _ s4 (λ result. refl) h4
                (λ a w5 h5 q5.
                  timely-then x config token input ports _ ticket expires' _ _ h5 (λ s6 h6 t6.
                    get-then Fine _ _ s6 (
                      reads-then x config token input ports _ ports.clock clock_read _ s6
                        (λ n. refl) h6
                        (λ now w7 h7 q7.
                          reads-then x config token input ports _ ports.clock clock_read _ _
                            (λ n. refl) h7
                            (λ last w8 h8 q8. After-throw_if Fine _ _ _ _ _ h8 (λ early.
                              let behind = Quiet-trans (IsTimely-Quiet t6) (Quiet-trans q7 q8) in
                              let same : s6.locals ≡ r.locals =
                                t6.locals_same ∙ t4.locals_same ∙ fresh.quiet.locals_same
                                ∙ t2.locals_same ∙ t1.locals_same in
                              let all = Quiet-trans (IsTimely-Quiet t1) (
                                Quiet-trans (IsTimely-Quiet t2) (
                                  Quiet-trans fresh.quiet
                                    (Quiet-trans (IsTimely-Quiet t4) (Quiet-trans q5 behind)))) in
                              return-After Fine (IsReady r) _ _ (record {
                                sound = h8;
                                quiet = all;
                                unchanged = fresh.unchanged;
                                now = last;
                                steps = λ calls k. InOrder-newest (clock_read last) (
                                    InOrder-IsQuiet
                                      (IsQuiet-trans (IsTimely-Quiet t6).quiet q7.quiet)
                                      (InOrder-newest _ (
                                        InOrder-IsQuiet (IsTimely-Quiet t4).quiet (
                                          fresh.asked calls (
                                            InOrder-IsQuiet
                                              (IsQuiet-trans (IsTimely-Quiet t1).quiet
                                                (IsTimely-Quiet t2).quiet)
                                              k)))));
                                ahead = ground arith;
                                covered = rw (← same) (ground arith);
                              })))))))))))

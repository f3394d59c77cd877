-- ===== src/Routing/Executor/Retiring.antt =====
-- The branches of the executor that report the usage and clear a Space keep every run sound.
use mathlib.Core.List.{Memᴰ}
use memory_server_worker.Prelude.{String, true, ok, ◌≡◌, refl}
use memory_server_worker.Prelude.Actions.{
  recover, After, After-continue, After-throw_if, After-recover, After-if,
}
use memory_server_worker.Routing.SpaceLedger.Rows.{Identity}
use memory_server_worker.Routing.SpaceLedger.Inputs.{Retirement, RetireInput}
use memory_server_worker.Routing.Executor.Requests.{
  ClearInput, UsageInput, clear_request, usage_request,
}
use memory_server_worker.Routing.Executor.Ports.{
  Failure, Authority, Ports, clock_read, retires, Run, Config,
}
use memory_server_worker.Routing.Executor.Answers.{Externals, Answer}
use memory_server_worker.Routing.Executor.Clearing.{
  report_usage, delete_profile, mark_unknown, clear_space,
}
use memory_server_worker.Routing.Executor.Execution.{identity_of}
use memory_server_worker.Routing.Executor.Traces.{Mem-IsQuiet}
use memory_server_worker.Routing.Executor.Calls.{
  grown, Quiet-grown, perform-After, perform-then, assign-then, assign-After, return-After,
  get-then, IsLive-Quiet,
}
use memory_server_worker.Routing.Executor.Clearance.{IsRetired, IsSound-assign, IsSound-deletes}
use memory_server_worker.Routing.Executor.Disclosure.{Justified}
use memory_server_worker.Routing.Executor.Steps.{
  Sound, still, live-then, fresh-then, reads-then, asks-then,
}

module _ {ℓ} {S : Type ℓ} (x : Externals) (config : Config) (token : String) (ports : Ports S)
    (first : Authority) where
  module _ (v : UsageInput) where
    abbrev Sane : Run S → Type ℓ
    Sane = Sound x config token (usage_request v) ports

    -- A run that stays sound, and an answer that shows no content.
    pub report_usage-After :
        (identity : Identity) (r : Run S)
        → Sane r
        → After
            (λ a s. Sane s × Justified config token (usage_request v) a.body s.log)
            Sane
            (report_usage x ports token (usage_request v) first identity r)
    unfolding report_usage
    report_usage-After identity r h =
        asks-then x config token (usage_request v) ports _ _ _ _ r (λ result. refl) h
          (λ usage w h1 q1. live-then x config token (usage_request v) ports _ _ _ h1 (λ s h2 live.
            fresh-then x config token (usage_request v) ports _ first _ s h2
              (λ current t h3 fresh. return-After Sane _ _ t (h3, (refl, tt)))))

  module _ (v : ClearInput) (retire : RetireInput) (retirement : Retirement)
      (names : retire.operation_id ≡ v.operation_id) (fresh : retirement.may_dispatch ≡ true) where
    abbrev Fine : Run S → Type ℓ
    Fine = Sound x config token (clear_request v) ports

    delete_profile-IsSound :
        (r : Run S)
        → Fine r
        → Memᴰ (retires retire (ok retirement)) r.log
        → After
            (λ _ s. Fine s)
            Fine
            (delete_profile x ports token
              (clear_request v)
              first
              (identity_of config first)
              retirement
              r)
    unfolding delete_profile
    delete_profile-IsSound r h m =
        let input = clear_request v in
        fresh-then x config token input ports _ first _ r h (λ current s h1 again.
          live-then x config token input ports _ _ s h1 (λ t h2 live.
            reads-then x config token input ports _ ports.clock clock_read _ t (λ now. refl) h2
              (λ now w h3 q3.
                reads-then x config token input ports _ ports.clock clock_read _
                  (grown t w (clock_read now)) (λ again. refl) h3
                  (λ last w' h4 q4. After-throw_if Fine _ _ _ _ _ h4 (λ early.
                    assign-then Fine _ _ _ _ (
                      let kept = Mem-IsQuiet q4.quiet (
                        Mem-IsQuiet q3.quiet (
                          Mem-IsQuiet (IsLive-Quiet live).quiet
                            (Mem-IsQuiet again.quiet.quiet m))) in
                      let going =
                        IsSound-assign x config token input _ h4 refl refl refl refl refl
                          (λ k. refl) in
                      let retired : IsRetired x config token v _ _ = record {
                        first = first;
                        request = retire;
                        names_operation = names;
                        retirement = retirement;
                        retired = kept;
                        fresh = fresh;
                        own_profile = refl;
                      } in
                      perform-then Fine (λ _ s. Fine s) _ _ _ _
                        (λ a w5 e.
                          let done =
                            IsSound-deletes x config token input w5 v _ _ (ok a) going refl
                              retired in
                          let noted =
                            IsSound-assign x config token input _ done refl refl refl refl refl
                              (λ k. k) in
                          assign-then Fine _ _ _ _ (
                            asks-then x config token input ports _ _ _ _ _ (λ result. refl) noted
                              (λ a' w6 h6 q6. assign-After Fine _ _ _ (
                                IsSound-assign x config token input _ h6 refl refl refl refl refl
                                  (λ k. k)))))
                        (λ e w5 k.
                          IsSound-deletes x config token input w5 v _ _ _ going refl retired)))))))

    mark_unknown-IsSound :
        (failure : Failure) (r : Run S)
        → Fine r
        → After
            (λ _ s. Fine s)
            Fine
            (mark_unknown x ports token (identity_of config first) retirement failure r)
    unfolding mark_unknown
    mark_unknown-IsSound failure r h = get-then Fine _ _ r (
        After-if Fine (λ _ s. Fine s) r.locals.dispatched _ _ r
          (λ tried.
            After-recover Fine (λ _ s. Fine s) _ _
              (perform-After Fine (λ _ s. Fine s) _ _ r
                (λ a w e. still x config token (clear_request v) ports h (Quiet-grown r w _ refl))
                (λ e w k. still x config token (clear_request v) ports h (Quiet-grown r w _ refl)))
              (λ e s k. return-After Fine _ _ s k))
          (λ untried. return-After Fine _ _ r h))

    pub purge-IsSound :
        (r : Run S)
        → Fine r
        → Memᴰ (retires retire (ok retirement)) r.log
        → After
            (λ _ s. Fine s)
            Fine
            (recover (mark_unknown x ports token (identity_of config first) retirement) (
              delete_profile x ports token
                (clear_request v)
                first
                (identity_of config first)
                retirement
                r))
    purge-IsSound r h m =
        After-recover Fine (λ _ s. Fine s) _ _ (delete_profile-IsSound r h m) mark_unknown-IsSound

module _ {ℓ} {S : Type ℓ} (x : Externals) (config : Config) (token : String) (ports : Ports S)
    (first : Authority) (v : ClearInput) where
  abbrev Fair : Run S → Type ℓ
  Fair = Sound x config token (clear_request v) ports

  abbrev Cleared : Answer → Run S → Type ℓ
  Cleared a s = Fair s × Justified config token (clear_request v) a.body s.log

  pub clear_space-After :
      (r : Run S)
      → Fair r
      → After Cleared Fair (clear_space x ports token v first (identity_of config first) r)
  unfolding clear_space
  clear_space-After r h =
      let input = clear_request v in
      assign-then Fair _ _ _ _ (
        live-then x config token input ports _ _ _
          (IsSound-assign x config token input _ h refl refl refl refl refl (λ k. k))
          (λ s h1 live.
            asks-then x config token input ports _ _ _ _ s (λ result. refl) h1
              (λ retirement w h2 q2. assign-then Fair _ _ _ _ (
                live-then x config token input ports _ _ _
                  (IsSound-assign x config token input _ h2 refl refl refl refl refl (λ k. k))
                  (λ t h3 live'.
                    After-continue Fair (λ _ u. Fair u) Cleared _ _
                      (After-if Fair (λ _ u. Fair u) retirement.may_dispatch _ _ t
                        (λ fresh.
                          purge-IsSound x config token ports first v _ retirement refl fresh t h3
                            (Mem-IsQuiet (IsLive-Quiet live').quiet (Memᴰ.head refl)))
                        (λ replayed. return-After Fair _ _ t h3))
                      (λ a u h4.
                        fresh-then x config token input ports _ first _ u h4 (λ current u' h5 fresh.
                          get-then Fair Cleared _ u'
                            (return-After Fair Cleared _ u' (h5, (refl, tt))))))))))

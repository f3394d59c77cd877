-- ===== src/Routing/Executor/Calls.antt =====
-- What the calls of the executor leave: the value, and the log with one event more. A call that only
-- reads the signal, the clock or the authority leaves a quiet log.
use mathlib.Core.List.{Sublistᴰ}
use memory_server_worker.Prelude.{
  ℕ, ◌<◌, String, true, false, List, ◌∷◌, Result, ok, err, ◌≡◌, refl, ap, arith,
}
use memory_server_worker.Prelude.Actions.{
  Action, continue, After, After-continue, After-throw_if, After-then, After-guard,
}
use memory_server_worker.Routing.SpaceLedger.Inputs.{Ticket}
use memory_server_worker.Routing.Executor.Requests.{Input, kind_of, space_of}
use memory_server_worker.Routing.Executor.Ports.{
  Failure, Authority, Ports, Event, clock_read, signal_read, authority_asked, Run, Config, perform,
  observe, assign, get, Locals,
}
use memory_server_worker.Routing.Executor.Admission.{
  has_changed, check, refresh, admission_deadline, check_admission,
}
use memory_server_worker.Routing.Executor.Traces.{
  is_quiet, same, more, InOrder, InOrder-newest, Quiet, Quiet-trans,
}

module _ {ℓ} {S : Type ℓ} where
  abbrev pub grown : Run S → S → Event → Run S
  grown r world e = record r { world = world; log = e ∷ r.log }

  pub Quiet-grown :
      (r : Run S) (world : S) (e : Event) → is_quiet e ≡ true → Quiet r (grown r world e)
  Quiet-grown r world e q = record { locals_same = refl; quiet = more e q same }

  module _ (F : Run S → Type ℓ) where
    logged-After {κ} :
        {A : Type κ} (Q : A → Run S → Type ℓ) (event : Result Failure A → Event) (r : Run S)
        (out : Result Failure A × S)
        → ((a : A) (world : S) → out ≡ (ok a, world) → Q a (grown r world (event (ok a))))
        → ((e : Failure) (world : S) → out ≡ (err e, world) → F (grown r world (event (err e))))
        → After Q F (out.0, grown r out.1 (event out.0))
    unfolding After
    logged-After Q event r (ok a, world) returned threw = returned a world refl
    logged-After Q event r (err e, world) returned threw = threw e world refl

    pub perform-After {κ} :
        {A : Type κ} (Q : A → Run S → Type ℓ) (port : Action Failure S A)
        (event : Result Failure A → Event) (r : Run S)
        → ((a : A) (world : S) → port r.world ≡ (ok a, world) → Q a (grown r world (event (ok a))))
        → ((e : Failure) (world : S)
            → port r.world ≡ (err e, world)
            → F (grown r world (event (err e))))
        → After Q F (perform port event r)
    unfolding perform
    perform-After Q port event r returned threw =
        logged-After Q event r (port r.world) returned threw

    pub observe-After {κ} :
        {A : Type κ} (Q : A → Run S → Type ℓ) (port : S → A × S) (event : A → Event) (r : Run S)
        → ((a : A) (world : S) → port r.world ≡ (a, world) → Q a (grown r world (event a)))
        → After Q F (observe port event r)
    unfolding After observe
    observe-After Q port event r returned = returned (port r.world).0 (port r.world).1 refl

    -- The same where a block goes on.
    pub perform-then {κ ν} :
        {A : Type κ} {B : Type ν} (Q : B → Run S → Type ℓ) (port : Action Failure S A)
        (event : Result Failure A → Event) (rest : A → Action Failure (Run S) B) (r : Run S)
        → ((a : A) (world : S)
            → port r.world ≡ (ok a, world)
            → After Q F (rest a (grown r world (event (ok a)))))
        → ((e : Failure) (world : S)
            → port r.world ≡ (err e, world)
            → F (grown r world (event (err e))))
        → After Q F (continue rest (perform port event r))
    perform-then Q port event rest r returned threw =
        After-continue F (λ a s. After Q F (rest a s)) Q rest (perform port event r)
          (perform-After (λ a s. After Q F (rest a s)) port event r returned threw) (λ a s h. h)

    pub observe-then {κ ν} :
        {A : Type κ} {B : Type ν} (Q : B → Run S → Type ℓ) (port : S → A × S) (event : A → Event)
        (rest : A → Action Failure (Run S) B) (r : Run S)
        → ((a : A) (world : S)
            → port r.world ≡ (a, world)
            → After Q F (rest a (grown r world (event a))))
        → After Q F (continue rest (observe port event r))
    unfolding continue observe
    observe-then Q port event rest r returned = returned (port r.world).0 (port r.world).1 refl

    pub assign-then {ν} :
        {B : Type ν} (Q : B → Run S → Type ℓ) (change : Locals → Locals)
        (rest : Unit {0} → Action Failure (Run S) B) (r : Run S)
        → After Q F (rest tt (record r { locals = change r.locals }))
        → After Q F (continue rest (assign change r))
    unfolding continue assign
    assign-then Q change rest r h = h

    pub return-After {κ} :
        {A : Type κ} (Q : A → Run S → Type ℓ) (a : A) (r : Run S)
        → Q a r
        → After {E = Failure} Q F (ok a, r)
    unfolding After
    return-After Q a r held = held

    pub assign-After :
        (Q : Unit {0} → Run S → Type ℓ) (change : Locals → Locals) (r : Run S)
        → Q tt (record r { locals = change r.locals })
        → After Q F (assign change r)
    unfolding After assign
    assign-After Q change r h = h

    pub get-then {ν} :
        {B : Type ν} (Q : B → Run S → Type ℓ) (rest : Locals → Action Failure (Run S) B) (r : Run S)
        → After Q F (rest r.locals r)
        → After Q F (continue rest (get r))
    unfolding continue get
    get-then Q rest r h = h

  -- The signal was read, and was not set.
  pub record IsLive (r s : Run S) : Type ℓ where
    pub locals_same : s.locals ≡ r.locals
    pub log : s.log ≡ signal_read false ∷ r.log

  pub IsLive-Quiet : {r s : Run S} → IsLive r s → Quiet r s
  IsLive-Quiet h = record { locals_same = h.locals_same; quiet = rw h.log (more _ refl same) }

  module _ (ports : Ports S) where
    pub check-After : (r : Run S) → After (λ _ s. IsLive r s) (Quiet r) (check ports r)
    unfolding check
    check-After r = observe-then (Quiet r) _ ports.aborted signal_read _ r (λ aborted w e.
        After-guard (Quiet r) _ aborted _ (grown r w (signal_read aborted))
          (λ set. Quiet-grown r w (signal_read aborted) refl)
          (λ clear. record { locals_same = refl; log = rw clear refl }))

    -- The rest of a block behind a check.
    pub check-then {ν} :
        {B : Type ν} (F : Run S → Type ℓ) (Q : B → Run S → Type ℓ)
        (rest : Unit {0} → Action Failure (Run S) B) (r : Run S)
        → ((s : Run S) → Quiet r s → F s)
        → ((s : Run S) → IsLive r s → After Q F (rest tt s))
        → After Q F (continue rest (check ports r))
    check-then F Q rest r fails then =
        After-then F (λ _ s. IsLive r s) (Quiet r) Q rest (check ports r) (check-After r) fails
          (λ a s h. then s h)

  -- The signal was not set and the deadline, which is the earliest one, is in the future.
  pub record IsTimely (config : Config) (ticket : Ticket) (expires : ℕ) (r s : Run S) : Type ℓ where
    pub now : ℕ
    pub before : now < admission_deadline config ticket r.locals expires
    pub locals_same : s.locals ≡ r.locals
    pub log : s.log ≡ clock_read now ∷ signal_read false ∷ r.log

  pub IsTimely-Quiet :
      {config : Config} {ticket : Ticket} {expires : ℕ} {r s : Run S}
      → IsTimely config ticket expires r s
      → Quiet r s
  IsTimely-Quiet h = record {
    locals_same = h.locals_same;
    quiet = rw h.log (more _ refl (more _ refl same));
  }

  module _ (config : Config) (ports : Ports S) where
    pub check_admission-After :
        (ticket : Ticket) (expires : ℕ) (r : Run S)
        → After
            (λ _ s. IsTimely config ticket expires r s)
            (Quiet r)
            (check_admission config ports ticket expires r)
    unfolding check_admission
    check_admission-After ticket expires r =
        check-then ports (Quiet r) _ _ r (λ s q. q)
          (λ s live. get-then (Quiet r) _ _ s (
            observe-then (Quiet r) _ ports.clock clock_read _ s (λ now w e.
              After-guard (Quiet r) _ _ _ (grown s w (clock_read now))
                (λ late. Quiet-trans (IsLive-Quiet live) (Quiet-grown s w (clock_read now) refl))
                (λ early. record {
                  now = now;
                  before = rw (← live.locals_same) (ground arith);
                  locals_same = live.locals_same;
                  log = ap (λ l. clock_read now ∷ l) live.log;
                }))))

    pub check_admission-then {ν} :
        {B : Type ν} (F : Run S → Type ℓ) (Q : B → Run S → Type ℓ) (ticket : Ticket) (expires : ℕ)
        (rest : Unit {0} → Action Failure (Run S) B) (r : Run S)
        → ((s : Run S) → Quiet r s → F s)
        → ((s : Run S) → IsTimely config ticket expires r s → After Q F (rest tt s))
        → After Q F (continue rest (check_admission config ports ticket expires r))
    check_admission-then F Q ticket expires rest r fails then =
        After-then F (λ _ s. IsTimely config ticket expires r s) (Quiet r) Q rest
          (check_admission config ports ticket expires r) (check_admission-After ticket expires r)
          fails (λ a s h. then s h)

  -- The authority was asked again, and is the first one.
  pub record IsRefreshed (token : String) (input : Input) (first current : Authority) (r s : Run S)
      : Type ℓ where
    pub quiet : Quiet r s
    pub asked :
        (calls : List Event)
        → InOrder calls r.log
        → InOrder
            (authority_asked token (space_of input) (kind_of input) (ok current) ∷ calls)
            s.log
    pub unchanged : has_changed input first current ≡ false

  module _ (ports : Ports S) (token : String) (input : Input) (first : Authority) where
    pub refresh-After :
        (r : Run S)
        → After
            (λ current s. IsRefreshed token input first current r s)
            (Quiet r)
            (refresh ports token input first r)
    unfolding refresh After
    refresh-After r =
        check-then ports (Quiet r) _ _ r (λ s q. q)
          (λ s live.
            perform-then (Quiet r) _ _ _ _ s
              (λ current w e.
                let asked = authority_asked token (space_of input) (kind_of input) (ok current) in
                let t = grown s w asked in
                let q = Quiet-trans (IsLive-Quiet live) (Quiet-grown s w asked refl) in
                check-then ports (Quiet r) _ _ t (λ u q'. Quiet-trans q q')
                  (λ u live'.
                    let q' = Quiet-trans q (IsLive-Quiet live') in
                    After-throw_if (Quiet r) _ (has_changed input first current) _ _ u q' (λ same'.
                      observe-then (Quiet r) _ ports.clock clock_read _ u (λ now w' e'.
                        let q'' = Quiet-trans q' (Quiet-grown u w' (clock_read now) refl) in
                        After-throw_if (Quiet r) _ _ _ _ (grown u w' (clock_read now)) q'' (λ early.
                          record {
                            quiet = q'';
                            asked = λ calls h. rw live'.log (
                                Sublistᴰ.cons (
                                  Sublistᴰ.cons
                                    (InOrder-newest asked (rw live.log (Sublistᴰ.cons h)))));
                            unchanged = same';
                          })))))
              (λ e w h. Quiet-trans (IsLive-Quiet live) (
                Quiet-grown s w (authority_asked token (space_of input) (kind_of input) (err e))
                  refl)))

    pub refresh-then {ν} :
        {B : Type ν} (F : Run S → Type ℓ) (Q : B → Run S → Type ℓ)
        (rest : Authority → Action Failure (Run S) B) (r : Run S)
        → ((s : Run S) → Quiet r s → F s)
        → ((current : Authority) (s : Run S)
            → IsRefreshed token input first current r s
            → After Q F (rest current s))
        → After Q F (continue rest (refresh ports token input first r))
    refresh-then F Q rest r fails then =
        After-then F (λ current s. IsRefreshed token input first current r s) (Quiet r) Q rest
          (refresh ports token input first r) (refresh-After r) fails then

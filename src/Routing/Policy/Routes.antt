-- ===== src/Routing/Policy/Routes.antt =====
-- Which route a decision gets (resolveMemoryRoute).
use mathlib.Core.List.{Mem}
use memory_server_worker.Prelude.{
  true, false, Option, none, some, List, ◌==◌, any_row_none, any_row_all, ◌≡◌, ◌≢◌, refl, ◌⊎◌, inl,
  inr, ok, err, arith, Bool-cases,
}
use memory_server_worker.Routing.Policy.{
  Classification, general, medical, region_locked, uncertain, to_agent_memory, to_seoul, Route,
  agent_memory, seoul, Selector, downgrade_denied, route_eq, Decision, Restriction, Plan,
  agent_plan, seoul_plan, is_decision, are_restrictions, is_confined, is_locked,
  resolve_memory_route,
}

-- A decision and the restrictions that it inherits leave the request free to go to Agent Memory.
pub record IsFree (d : Decision) (rs : List Restriction) : Type 0 where
  pub unclassified :
      (d.classification ≡ general) ⊎ ((d.classification ≡ medical) × (d.consent ≢ none))
  pub region : d.requires_seoul ≡ false
  pub inherited : (r : Restriction) → Mem r rs → r.route ≡ agent_memory

IsFree-of_unlocked : (d : Decision) (rs : List Restriction) → is_locked d rs ≡ false → IsFree d rs
unfolding is_locked
IsFree-of_unlocked d rs h = record {
  unclassified = confined d.classification d.consent (ground arith);
  region = ground arith;
  inherited = λ r m. not_seoul r.route (any_row_none (λ x. x.route == seoul) rs (ground arith) r m);
}
  where
    confined :
        (c : Classification) (s : Option Selector)
        → is_confined c s ≡ false
        → (c ≡ general) ⊎ ((c ≡ medical) × (s ≢ none))
    confined general s e = inl refl
    confined medical (some x) e = inr (refl, λ eq. cc)
    confined medical none e = absurd (cc)
    confined region_locked s e = absurd (cc)
    confined uncertain s e = absurd (cc)

    not_seoul : (r : Route) → (r == seoul) ≡ false → r ≡ agent_memory
    not_seoul r e = ground arith

unlocked_of_free : (d : Decision) (rs : List Restriction) → IsFree d rs → is_locked d rs ≡ false
unfolding is_locked
unlocked_of_free d rs f = ground (
  arith,
  confined d.classification d.consent f.unclassified,
  f.region,
  any_row_all (λ x. x.route == seoul) rs (λ r m. not_seoul r.route (f.inherited r m)),
)
  where
    confined :
        (c : Classification) (s : Option Selector)
        → (c ≡ general) ⊎ ((c ≡ medical) × (s ≢ none))
        → is_confined c s ≡ false
    confined c (some x) h = ground arith
    confined c none h = ground arith

    not_seoul : (r : Route) → r ≡ agent_memory → (r == seoul) ≡ false
    not_seoul r e = ground arith

-- A request goes to Agent Memory only if it is free to and does not ask for Seoul.
pub resolve_memory_route_sound :
    (d : Decision) (rs : List Restriction) {p : Plan}
    → resolve_memory_route d rs ≡ ok p
    → p.route ≡ agent_memory
    → (p ≡ agent_plan) × IsFree d rs × (d.destination ≢ some to_seoul)
unfolding resolve_memory_route
resolve_memory_route_sound d rs h a =
    (ground arith, IsFree-of_unlocked d rs (ground arith), λ e. ground arith)

-- A well-formed free request that does not ask for Seoul goes to Agent Memory.
pub resolve_memory_route_complete :
    (d : Decision) (rs : List Restriction)
    → is_decision d ≡ true
    → are_restrictions rs ≡ true
    → IsFree d rs
    → d.destination ≢ some to_seoul
    → resolve_memory_route d rs ≡ ok agent_plan
unfolding resolve_memory_route
resolve_memory_route_complete d rs hd hr f n = ground (arith, unlocked_of_free d rs f)

-- A well-formed request that is not free is refused if it asks for Agent Memory, and goes to Seoul if not.
pub resolve_memory_route_locked :
    (d : Decision) (rs : List Restriction)
    → is_decision d ≡ true
    → are_restrictions rs ≡ true
    → ¬ (IsFree d rs)
    → ((d.destination ≡ some to_agent_memory) → resolve_memory_route d rs ≡ err downgrade_denied)
      × ((d.destination ≢ some to_agent_memory) → resolve_memory_route d rs ≡ ok seoul_plan)
unfolding resolve_memory_route
resolve_memory_route_locked d rs hd hr n = elim (Bool-cases (is_locked d rs)) [
  | inl locked ↦ (λ e. ground arith, λ e. ground arith)
  | inr free ↦ absurd (n (IsFree-of_unlocked d rs free))
]

resolve_memory_route-valid :
    (d : Decision) (rs : List Restriction) {p : Plan}
    → resolve_memory_route d rs ≡ ok p
    → (is_decision d ≡ true) × (are_restrictions rs ≡ true)
unfolding resolve_memory_route
resolve_memory_route-valid d rs h = (ground arith, ground arith)

-- More restrictions never bring a request from Seoul to Agent Memory.
pub resolve_memory_route_monotone :
    (d : Decision) (rs more : List Restriction) {p q : Plan}
    → ((r : Restriction) → Mem r rs → Mem r more)
    → resolve_memory_route d rs ≡ ok p
    → resolve_memory_route d more ≡ ok q
    → p.route ≡ seoul
    → q.route ≡ seoul
resolve_memory_route_monotone d rs more {p} {q} sub h k s = elim (Bool-cases (q.route == seoul)) [
  | inl yes_seoul ↦ ground arith
  | inr other ↦
      let (plan, free, n) = resolve_memory_route_sound d more k (ground arith) in
      let lesser : IsFree d rs = record {
        unclassified = free.unclassified;
        region = free.region;
        inherited = λ r m. free.inherited r (sub r m);
      } in
      let (vd, vr) = resolve_memory_route-valid d rs h in
      let again : resolve_memory_route d rs ≡ ok agent_plan =
        resolve_memory_route_complete d rs vd vr lesser n in
      absurd (ground arith)
]

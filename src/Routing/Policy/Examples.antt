-- ===== src/Routing/Policy/Examples.antt =====
-- A general and a medical decision, with the targets of both routes.
use mathlib.Core.List.{not-mem-nil}
use memory_server_worker.Prelude.{true, false, none, some, [], ◌∷◌, ◌≡◌, ◌≢◌, refl, ok, inl, arith}
use memory_server_worker.Routing.Policy.{
  Decision, medical, Restriction, Target, agent_plan, seoul_plan, general, region_locked,
  agent_memory, seoul, cloudflare_agent_memory, managed_agent_memory, cloudflare, to_seoul,
  is_decision, is_restriction, are_restrictions, is_locked, resolve_memory_route,
  assert_routing_target, is_plan, is_target, assert_server_routing,
}
use memory_server_worker.Routing.Policy.Routes.{
  IsFree, resolve_memory_route_sound, resolve_memory_route_complete,
}
use memory_server_worker.Routing.Policy.Servers.{Serves, Consents, assert_server_routing_sound}

abbrev plain : Decision
plain = record {
  classification = general;
  destination = none;
  requires_seoul = false;
  consent = none;
}

abbrev locked : Decision
locked = record plain { classification = region_locked }

abbrev in_seoul : Restriction
in_seoul = record { route = seoul; requires_seoul = true }

abbrev provider : Target
provider = record {
  route = agent_memory;
  storage = cloudflare_agent_memory;
  vector = managed_agent_memory;
  region = cloudflare;
  ready = true;
}

plain_route : resolve_memory_route plain [] ≡ ok agent_plan
unfolding resolve_memory_route is_decision are_restrictions is_locked
plain_route = refl

inherited_route : resolve_memory_route plain (in_seoul ∷ []) ≡ ok seoul_plan
unfolding resolve_memory_route is_decision are_restrictions is_restriction is_locked
inherited_route = refl

further_route : resolve_memory_route plain (in_seoul ∷ in_seoul ∷ []) ≡ ok seoul_plan
unfolding resolve_memory_route is_decision are_restrictions is_restriction is_locked
further_route = refl

plain_served : assert_server_routing plain (some provider) [] none ≡ ok agent_plan
unfolding assert_server_routing assert_routing_target is_plan is_target resolve_memory_route
    is_decision are_restrictions is_locked
plain_served = refl

plain-IsFree : IsFree plain []
plain-IsFree = record {
  unclassified = inl refl;
  region = refl;
  inherited = λ r m. absurd (not-mem-nil m);
}

plain_decision : is_decision plain ≡ true
unfolding is_decision
plain_decision = refl

no_restrictions : are_restrictions [] ≡ true
unfolding are_restrictions
no_restrictions = refl

not-IsFree : ¬ (IsFree locked [])
not-IsFree f = ground (arith, f.unclassified)

resolve_memory_route_sound_example :
    (agent_plan ≡ agent_plan) × IsFree plain [] × (plain.destination ≢ some to_seoul)
resolve_memory_route_sound_example = resolve_memory_route_sound plain [] plain_route refl

resolve_memory_route_complete_example : resolve_memory_route plain [] ≡ ok agent_plan
resolve_memory_route_complete_example =
    resolve_memory_route_complete plain [] plain_decision no_restrictions plain-IsFree (λ e. cc)

assert_server_routing_sound_example :
    (resolve_memory_route plain [] ≡ ok agent_plan)
    × ((x : Target) × (some provider ≡ some x) × Serves agent_plan x)
    × (agent_memory ≡ agent_memory → general ≡ medical → Consents plain none)
assert_server_routing_sound_example =
    assert_server_routing_sound plain (some provider) [] none plain_served

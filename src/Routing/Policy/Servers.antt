-- ===== src/Routing/Policy/Servers.antt =====
-- What a server has checked when it accepts a route (assertServerRouting).
use memory_server_worker.Prelude.{
  Result-cases, true, Option, none, some, List, ◌≡◌, refl, ok, arith, inl, inr,
}
use memory_server_worker.Routing.Consent.{Context, Permit, assert_consent}
use memory_server_worker.Routing.Policy.{
  medical, agent_memory, Region, route_eq, Decision, Restriction, Plan, Target, is_target,
  selected_reference, assert_routing_target, assert_medical, assert_server_routing,
  resolve_memory_route,
}

-- The target is ready, well-formed and the one of the plan.
pub record Serves (p : Plan) (t : Target) : Type 0 where
  pub is_ready : t.ready ≡ true
  pub well_formed : is_target t ≡ true
  pub route : t.route ≡ p.route
  pub storage : t.storage ≡ p.storage
  pub vector : t.vector ≡ p.vector
  pub region : (r : Region) → p.required_region ≡ some r → t.region ≡ r

-- The consent for a medical request, of the context that the service supplies.
pub record Consents (d : Decision) (context : Option Context) : Type 0 where
  pub supplied : Context
  pub is_supplied : context ≡ some supplied
  pub unreferred : supplied.reference ≡ none
  pub permit : Permit
  pub permitted :
      assert_consent (record supplied { reference = selected_reference d.consent }) ≡ ok permit

assert_routing_target_sound :
    (p : Plan) (t : Option Target)
    → assert_routing_target p t ≡ ok tt
    → (x : Target) × (t ≡ some x) × Serves p x
unfolding assert_routing_target
assert_routing_target_sound p none h = absurd (ground arith)
assert_routing_target_sound p (some x) h = (
  x,
  refl,
  record {
    is_ready = ground arith;
    well_formed = ground arith;
    route = ground arith;
    storage = ground arith;
    vector = ground arith;
    region = λ r e. ground arith;
  },
)

assert_medical_sound :
    (d : Decision) (context : Option Context)
    → assert_medical d context ≡ ok tt
    → Consents d context
unfolding assert_medical
assert_medical_sound d none h = absurd (cc)
assert_medical_sound d (some c) h =
    elim (Result-cases (assert_consent (record c { reference = selected_reference d.consent }))) [
      | inl (permit, e) ↦ record {
        supplied = c;
        is_supplied = refl;
        unreferred = ground arith;
        permit = permit;
        permitted = e;
      }
      | inr (code, e) ↦ absurd (ground arith)
    ]

-- A server that accepts a request gives the route of the decision, to a ready target of that route,
-- and a medical request goes to Agent Memory only with a permit from the supplied consent.
pub assert_server_routing_sound :
    (d : Decision) (t : Option Target) (rs : List Restriction) (context : Option Context) {p : Plan}
    → assert_server_routing d t rs context ≡ ok p
    → (resolve_memory_route d rs ≡ ok p)
      × ((x : Target) × (t ≡ some x) × Serves p x)
      × (p.route ≡ agent_memory → d.classification ≡ medical → Consents d context)
unfolding assert_server_routing
assert_server_routing_sound d t rs context h = (
  ground arith,
  assert_routing_target_sound _ t (ground arith),
  λ a m. assert_medical_sound d context (ground arith),
)

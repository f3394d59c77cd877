-- ===== src/MemoryWorker/Migration/Verified.antt =====
-- What a migration that returns has verified.
use mathlib.Core.Path.{subst}
use memory_server_worker.Prelude.{
  ℕ, ◌+◌, Bool, true, false, ◌||◌, Option, List, [], ◌∷◌, nat_eq, length, contains, All, Result, ok,
  err, ◌≡◌, refl, ap, sym, ◌∙◌, arith, Bool-cases, inl, inr,
}
use memory_server_worker.Texts.{Text, text_eq}
use memory_server_worker.Prelude.Actions.{continue, throw_if}
use memory_server_worker.MemoryWorker.Migration.{
  Error, Plan, Memory, Summary, Action, Client, is_confirmed, add, fingerprint_of, fingerprint_set,
  copy_memories, migrate_between, migrate_legacy_scoped_profile,
}
use memory_server_worker.MemoryWorker.Migration.Sets.{all_rows-fingerprint_set}
use memory_server_worker.MemoryWorker.Migration.Stores.{IsStore}

-- A sequence that returned: so did its first part, and its rest on what that gave.
continue-eq-ok {ℓ κ μ} :
    {S : Type ℓ} {A : Type κ} {B : Type μ} (rest : A → Action S B) (m : Result Error A × S)
    {done : B × S}
    → continue rest m ≡ (ok done.0, done.1)
    → (a : A) × (m.0 ≡ ok a) × (rest a m.1 ≡ (ok done.0, done.1))
unfolding continue
continue-eq-ok rest (err e, s) h = absurd (ground arith)
continue-eq-ok rest (ok a, s) h = (a, refl, h)

throw_if-eq-ok {ℓ μ} :
    {S : Type ℓ} {B : Type μ} (b : Bool) (e : Error) (rest : Unit {0} → Action S B) (s : S)
    {done : B × S}
    → continue rest (throw_if b e s) ≡ (ok done.0, done.1)
    → (b ≡ false) × (rest tt s ≡ (ok done.0, done.1))
unfolding continue throw_if
throw_if-eq-ok true e rest s h = absurd (ground arith)
throw_if-eq-ok false e rest s h = (refl, h)

module _ {ℓ} {S : Type ℓ} (digest : List (Option Text) → Text) (client : Client S)
    (plan : Plan) where
  copy_memories-counts :
      (ms : List Memory) (seen target : List Text) (copied already : ℕ) (s : S) {done : (ℕ × ℕ) × S}
      → copy_memories digest client plan ms seen target copied already s ≡ (ok done.0, done.1)
      → done.0.0 + done.0.1 ≡ copied + already + length ms
  unfolding copy_memories
  copy_memories-counts [] seen target copied already s h = ground arith
  copy_memories-counts (m ∷ ms) seen target copied already s {done = done} h =
      let f = fingerprint_of digest m in
      elim (Bool-cases (contains f seen || contains f target)) [
        | inl known ↦
            let rest =
              copy_memories-counts ms (add f seen) target copied (already + 1) s {done = done}
                (rw known at h) in
            omega arith
        | inr new ↦
            let (u, remembered, later) = continue-eq-ok _ _ {done = done} (rw new at h) in
            let rest =
              copy_memories-counts ms (add f seen) (add f target) (copied + 1) already _
                {done = done} later in
            omega arith
      ]

  -- What a migration of this source that returned from the state u has checked.
  pub record IsVerified (view : S → Text → List Memory) (source : List Memory) (done : Summary × S)
      : Type 0 where
    pub source_count : done.0.source_count ≡ length source
    pub unique_source_count : done.0.unique_source_count ≡ length (fingerprint_set digest source)
    pub counts : done.0.copied + done.0.already_present ≡ length source
    pub present :
        All
          (λ m.
            contains
              (fingerprint_of digest m)
              (fingerprint_set digest (view done.1 plan.target_profile))
            ≡ true)
          source

  migrate_between-IsVerified :
      (view : S → Text → List Memory) (store : IsStore client view) (source target : List Memory)
      (s : S) {done : Summary × S}
      → migrate_between digest client plan source target s ≡ (ok done.0, done.1)
      → IsVerified view source done
  unfolding migrate_between
  migrate_between-IsVerified view store source target s {done = done} h =
      let (within, h1) = throw_if-eq-ok _ _ _ _ {done = done} h in
      let (counts, copied, h2) = continue-eq-ok _ _ {done = done} h1 in
      let (after, read, h3) = continue-eq-ok _ _ {done = done} h2 in
      let (unchanged, h4) = throw_if-eq-ok _ _ _ _ {done = done} h3 in
      let (last, listed, h5) = continue-eq-ok _ _ {done = done} h4 in
      let (verified, h6) = throw_if-eq-ok _ _ _ _ {done = done} h5 in
      let run = copy_memories digest client plan source [] (fingerprint_set digest target) 0 0 s in
      let whole : run ≡ (ok counts, run.1) = ap (λ (r : Result Error (ℕ × ℕ)). (r, run.1)) copied in
      let total = copy_memories-counts source [] _ 0 0 s {done = (counts, run.1)} whole in
      let u = (client.list_profile plan.source_profile run.1).1 in
      let seen : last ≡ view done.1 plan.target_profile =
        store.list_reads plan.target_profile u last listed
        ∙ sym (store.list_keeps plan.target_profile u plan.target_profile)
        ∙ ap (λ (x : Result Error Summary × S). view x.1 plan.target_profile) h6 in
      let all =
        all_rows-fingerprint_set digest (λ f. contains f (fingerprint_set digest last)) source
          (ground arith) in
      record {
        source_count = ground arith;
        unique_source_count = ground arith;
        counts = ground arith;
        present = rw seen at all;
      }

  pub migrate-IsVerified :
      (view : S → Text → List Memory) (store : IsStore client view) (confirmed : Text) (s : S)
      {done : Summary × S}
      → migrate_legacy_scoped_profile digest client plan confirmed s ≡ (ok done.0, done.1)
      → (is_confirmed plan confirmed ≡ true) × IsVerified view (view s plan.source_profile) done
  unfolding migrate_legacy_scoped_profile
  migrate-IsVerified view store confirmed s {done = done} h =
      let (same, h1) = throw_if-eq-ok _ _ _ _ {done = done} h in
      let (source, read, h2) = continue-eq-ok _ _ {done = done} h1 in
      let (full, h3) = throw_if-eq-ok _ _ _ _ {done = done} h2 in
      let (target, listed, h4) = continue-eq-ok _ _ {done = done} h3 in
      (
        ground arith,
        subst (λ ms. IsVerified view ms done) (store.list_reads plan.source_profile s source read)
            (migrate_between-IsVerified view store source target _ {done = done} h4),
      )

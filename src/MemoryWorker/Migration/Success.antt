-- ===== src/MemoryWorker/Migration/Success.antt =====
-- A migration over a service that does not fail returns.
use memory_server_worker.MemoryWorker.Migration.Fingerprints.{
  has_fingerprint, text_same, all_rows-add_complete, all_rows-add_all_complete, own_fingerprints,
  has_all-fingerprint_set,
}
use memory_server_worker.Prelude.{
  ℕ, ◌+◌, ◌<◌, Bool, true, false, ◌||◌, Option, List, [], ◌∷◌, nat_eq, length, all_rows, contains,
  All, Result, ok, err, ◌≡◌, ◌≢◌, refl, ap, sym, ◌∙◌, arith, Bool-cases, inl, inr,
}
use memory_server_worker.Texts.{Text, text_eq}
use memory_server_worker.Prelude.Actions.{continue, throw_if}
use memory_server_worker.MemoryWorker.Migration.{
  Error, Plan, Memory, Summary, Action, Client, is_confirmed, add, has_all, fingerprint_of,
  fingerprint_set, copy_memories, migrate_between, migrate_legacy_scoped_profile,
}
use memory_server_worker.MemoryWorker.Migration.Sets.{all_rows-contains}
use memory_server_worker.MemoryWorker.Migration.Stores.{IsStore}

-- A service whose calls all return, and where a memory that was remembered is listed.
pub record IsReliable {ℓ} {S : Type ℓ} (client : Client S) (view : S → Text → List Memory)
    : Type ℓ where
  pub store : IsStore client view
  pub lists : (p : Text) (s : S) → (client.list_profile p s).0 ≡ ok (view s p)
  pub remembers :
      (p content : Text) (session_id : Option Text) (s : S)
      → (client.remember p content session_id s).0 ≡ ok tt
  pub adds :
      (p content : Text) (session_id : Option Text) (s : S)
      → (id : Text) × (view (client.remember p content session_id s).1 p
          ≡ record { id = id; content = content; session_id = session_id } ∷ view s p)

abbrev pub Returns {ℓ κ} : {S : Type ℓ} {A : Type κ} → Result Error A × S → Type κ
Returns {A = A} m = (a : A) × (m.0 ≡ ok a)

continue-ok {ℓ κ μ} :
    {S : Type ℓ} {A : Type κ} {B : Type μ} (rest : A → Action S B) (m : Result Error A × S) (a : A)
    → m.0 ≡ ok a
    → continue rest m ≡ rest a m.1
unfolding continue
continue-ok rest (err e, s) a h = absurd (ground arith)
continue-ok rest (ok b, s) a h = let same : b ≡ a = ground arith in ap (λ x. rest x s) same

continue-Returns {ℓ κ μ} :
    {S : Type ℓ} {A : Type κ} {B : Type μ} (rest : A → Action S B) (m : Result Error A × S) (a : A)
    → m.0 ≡ ok a
    → Returns (rest a m.1)
    → Returns (continue rest m)
continue-Returns rest m a h returned = rw (continue-ok rest m a h) returned

throw_if-Returns {ℓ μ} :
    {S : Type ℓ} {B : Type μ} (b : Bool) (e : Error) (rest : Unit {0} → Action S B) (s : S)
    → b ≡ false
    → Returns (rest tt s)
    → Returns (continue rest (throw_if b e s))
unfolding continue throw_if
throw_if-Returns true e rest s h returned = absurd (ground arith)
throw_if-Returns false e rest s h returned = returned

module _ {ℓ} {S : Type ℓ} (digest : List (Option Text) → Text) (client : Client S)
    (view : S → Text → List Memory) (reliable : IsReliable client view) (plan : Plan)
    (other : plan.source_profile ≢ plan.target_profile) where
  -- The target has these fingerprints.
  abbrev HasAll : List Text → S → Type 0
  HasAll set s = all_rows (λ f. has_fingerprint digest f (view s plan.target_profile)) set ≡ true

  HasAll-more :
      (set : List Text) (s s' : S) (m : Memory)
      → view s' plan.target_profile ≡ m ∷ view s plan.target_profile
      → HasAll set s
      → HasAll set s'
  HasAll-more [] s s' m more h = refl
  HasAll-more (f ∷ set) s s' m more h =
      let rest = HasAll-more set s s' m more (ground arith) in ground arith

  HasAll-either :
      (f : Text) (seen target : List Text) (s : S)
      → HasAll seen s
      → HasAll target s
      → (contains f seen || contains f target) ≡ true
      → has_fingerprint digest f (view s plan.target_profile) ≡ true
  HasAll-either f seen target s h k known = elim (Bool-cases (contains f seen)) [
    | inl e ↦ all_rows-contains _ f seen e h
    | inr e ↦ all_rows-contains _ f target (ground arith) k
  ]

  -- What the loop over these memories leaves.
  record IsCopied (ms : List Memory) (s : S) (run : Result Error (ℕ × ℕ) × S) : Type ℓ where
    returned : (counts : ℕ × ℕ) × (run.0 ≡ ok counts)
    source_kept : view run.1 plan.source_profile ≡ view s plan.source_profile
    kept :
        (f : Text)
        → has_fingerprint digest f (view s plan.target_profile) ≡ true
        → has_fingerprint digest f (view run.1 plan.target_profile) ≡ true
    present :
        All
          (λ m.
            has_fingerprint digest (fingerprint_of digest m) (view run.1 plan.target_profile)
            ≡ true)
          ms

  copy_memories-IsCopied :
      (ms : List Memory) (seen target : List Text) (copied already : ℕ) (s : S)
      → HasAll seen s
      → HasAll target s
      → IsCopied ms s (copy_memories digest client plan ms seen target copied already s)
  unfolding copy_memories
  copy_memories-IsCopied [] seen target copied already s h k = record {
    returned = ((copied, already), refl);
    source_kept = refl;
    kept = λ f x. x;
    present = tt;
  }
  copy_memories-IsCopied (m ∷ ms) seen target copied already s h k =
      let f = fingerprint_of digest m in
      elim (Bool-cases (contains f seen || contains f target)) [
        | inl known ↦
            let there : has_fingerprint digest f (view s plan.target_profile) ≡ true =
              HasAll-either f seen target s h k known in
            let rest =
              copy_memories-IsCopied ms (add f seen) target copied (already + 1) s
                (all_rows-add_complete _ f seen there h) k in
            rw known (record {
              returned = rest.returned;
              source_kept = rest.source_kept;
              kept = rest.kept;
              present = (rest.kept f there, rest.present);
            })
        | inr new ↦
            let t = (client.remember plan.target_profile m.content m.session_id s).1 in
            let (id, more) = reliable.adds plan.target_profile m.content m.session_id s in
            let added : Memory = record {
              id = id;
              content = m.content;
              session_id = m.session_id;
            } in
            let there : has_fingerprint digest f (view t plan.target_profile) ≡ true =
              rw (more, text_same f) refl in
            let rest =
              copy_memories-IsCopied ms (add f seen) (add f target) (copied + 1) already t
                (all_rows-add_complete _ f seen there (HasAll-more seen s t added more h))
                (all_rows-add_complete _ f target there (HasAll-more target s t added more k)) in
            let run =
              continue-ok
                (λ _.
                  copy_memories digest client plan ms (add f seen) (add f target) (copied + 1)
                    already)
                (client.remember plan.target_profile m.content m.session_id s) tt
                (reliable.remembers plan.target_profile m.content m.session_id s) in
            rw (new, run)
              (record {
                returned = rest.returned;
                source_kept =
                    rest.source_kept
                    ∙ reliable.store.remember_others plan.target_profile m.content m.session_id s
                        plan.source_profile other;
                kept = λ g x. rest.kept g (rw more (ground arith));
                present = (rest.kept f there, rest.present);
              })
      ]

  migrate_between-Returns :
      (source target : List Memory) (s : S)
      → source ≡ view s plan.source_profile
      → target ≡ view s plan.target_profile
      → has_all (fingerprint_set digest target) (fingerprint_set digest source) ≡ true
      → Returns (migrate_between digest client plan source target s)
  unfolding migrate_between
  migrate_between-Returns source target s from to within =
      let known : HasAll (fingerprint_set digest target) s =
        all_rows-add_all_complete digest _ target [] (rw (← to) (own_fingerprints digest target))
          refl in
      let run = copy_memories digest client plan source [] (fingerprint_set digest target) 0 0 s in
      let copied =
        copy_memories-IsCopied source [] (fingerprint_set digest target) 0 0 s refl known in
      let (counts, returned) = copied.returned in
      let t = (client.list_profile plan.source_profile run.1).1 in
      let after = reliable.lists plan.source_profile run.1 in
      let last = reliable.lists plan.target_profile t in
      let same : view run.1 plan.source_profile ≡ source = copied.source_kept ∙ sym from in
      let own = has_all-fingerprint_set digest source source (own_fingerprints digest source) in
      let held = reliable.store.list_keeps plan.source_profile run.1 plan.target_profile in
      let whole =
        has_all-fingerprint_set digest source (view run.1 plan.target_profile) copied.present in
      throw_if-Returns _ _ _ s (rw within refl) (
        continue-Returns _ run counts returned (
          continue-Returns _ (client.list_profile plan.source_profile run.1) _ after (
            throw_if-Returns _ _ _ t (rw same (ground (arith, own))) (
              continue-Returns _ (client.list_profile plan.target_profile t) _ last
                (throw_if-Returns _ _ _ _ (rw (held, whole) refl) (_, refl))))))

  -- Over a service that does not fail, a migration that the owner confirms returns, if the source is
  -- another profile than the target and has a memory, and every fingerprint of the target is one of
  -- the source's.
  pub migrate_returns :
      (confirmed : Text) (s : S)
      → is_confirmed plan confirmed ≡ true
      → 0 < length (view s plan.source_profile)
      → has_all
          (fingerprint_set digest (view s plan.target_profile))
          (fingerprint_set digest (view s plan.source_profile))
        ≡ true
      → (done : Summary) × ((migrate_legacy_scoped_profile digest client plan confirmed s).0
          ≡ ok done)
  unfolding migrate_legacy_scoped_profile
  migrate_returns confirmed s owner full within =
      let t = (client.list_profile plan.source_profile s).1 in
      let u = (client.list_profile plan.target_profile t).1 in
      let keeps = reliable.store.list_keeps in
      throw_if-Returns _ _ _ s (rw owner refl) (
        continue-Returns _ (client.list_profile plan.source_profile s) _
          (reliable.lists plan.source_profile s)
          (throw_if-Returns _ _ _ t (ground arith) (
            continue-Returns _ (client.list_profile plan.target_profile t) _
              (reliable.lists plan.target_profile t)
              (migrate_between-Returns (view s plan.source_profile) (view t plan.target_profile) u
                (sym (
                  keeps plan.target_profile t plan.source_profile
                  ∙ keeps plan.source_profile s plan.source_profile))
                (sym (keeps plan.target_profile t plan.target_profile))
                (rw (keeps plan.source_profile s plan.target_profile) within)))))

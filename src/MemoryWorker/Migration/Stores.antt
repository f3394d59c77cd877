-- ===== src/MemoryWorker/Migration/Stores.antt =====
-- What the migration takes of the memory service, and what every migration does to its profiles.
use memory_server_worker.Prelude.{
  ℕ, ◌+◌, Bool, true, false, ◌||◌, Option, List, [], ◌∷◌, nat_eq, contains, All, Result, ok, err,
  ◌≡◌, ◌≢◌, ◌⊎◌, inl, inr, refl, ◌∙◌, Bool-cases,
}
use memory_server_worker.Texts.{Text, text_eq}
use memory_server_worker.Prelude.Actions.{continue, throw_if}
use memory_server_worker.MemoryWorker.Migration.{
  Error, Plan, Memory, Action, Client, add, fingerprint_of, fingerprint_set, copy_memories,
  migrate_between, migrate_legacy_scoped_profile,
}

-- The documented behaviour of the service, in which `view` gives the memories of a profile: a list
-- reads them and changes nothing, and `remember` adds one memory to its profile only. A `remember`
-- that throws may have added it or not.
pub record IsStore {ℓ} {S : Type ℓ} (client : Client S) (view : S → Text → List Memory)
    : Type ℓ where
  pub list_keeps : (p : Text) (s : S) (q : Text) → view (client.list_profile p s).1 q ≡ view s q
  pub list_reads :
      (p : Text) (s : S) (ms : List Memory) → (client.list_profile p s).0 ≡ ok ms → ms ≡ view s p
  pub remember_others :
      (p content : Text) (session_id : Option Text) (s : S) (q : Text)
      → q ≢ p
      → view (client.remember p content session_id s).1 q ≡ view s q
  pub remember_adds :
      (p content : Text) (session_id : Option Text) (s : S)
      → (view (client.remember p content session_id s).1 p ≡ view s p)
        ⊎ ((id : Text) × (view (client.remember p content session_id s).1 p
              ≡ record { id = id; content = content; session_id = session_id } ∷ view s p))

module _ {ℓ κ} {S : Type ℓ} (I : S → Type κ) where
  -- The action keeps what holds of the state, also where it throws.
  abbrev pub Keeps {μ} : {A : Type μ} → Action S A → Type (ℓ ⊔ κ)
  Keeps first = (s : S) → I s → I (first s).1

  pub continue-Keeps {μ ν} :
      {A : Type μ} {B : Type ν} (rest : A → Action S B) (m : Result Error A × S)
      → I m.1
      → ((a : A) → m.0 ≡ ok a → I (rest a m.1).1)
      → I (continue rest m).1
  unfolding continue
  continue-Keeps rest (err e, s) w h = w
  continue-Keeps rest (ok a, s) w h = h a refl

  pub throw_if-Keeps {ν} :
      {B : Type ν} (b : Bool) (e : Error) (rest : Unit {0} → Action S B) (s : S)
      → I s
      → (b ≡ false → I (rest tt s).1)
      → I (continue rest (throw_if b e s)).1
  unfolding continue throw_if
  throw_if-Keeps true e rest s w h = w
  throw_if-Keeps false e rest s w h = h refl

module _ {ℓ κ} {S : Type ℓ} (digest : List (Option Text) → Text) (client : Client S)
    (view : S → Text → List Memory) (store : IsStore client view) (plan : Plan)
    (P : Text → Option Text → Type κ) (start : S) where
  -- Other profiles are as they were at the start, and P holds of what the target has.
  abbrev pub IsCopying : S → Type κ
  IsCopying s =
      ((q : Text) → q ≢ plan.target_profile → view s q ≡ view start q)
      × All (λ m. P m.content m.session_id) (view s plan.target_profile)

  list-IsCopying : (p : Text) (s : S) → IsCopying s → IsCopying (client.list_profile p s).1
  list-IsCopying p s (others, copies) = (
    (λ q n. store.list_keeps p s q ∙ others q n),
    rw (store.list_keeps p s plan.target_profile) copies,
  )

  then_list {ν} :
      {B : Type ν} (p : Text) (rest : List Memory → Action S B) (s : S)
      → IsCopying s
      → ((ms : List Memory) (t : S) → IsCopying t → IsCopying (rest ms t).1)
      → IsCopying (continue rest (client.list_profile p s)).1
  then_list p rest s w h =
      continue-Keeps IsCopying rest (client.list_profile p s) (list-IsCopying p s w)
        (λ ms e. h ms (client.list_profile p s).1 (list-IsCopying p s w))

  remember-IsCopying :
      (m : Memory) (s : S)
      → P m.content m.session_id
      → IsCopying s
      → IsCopying (client.remember plan.target_profile m.content m.session_id s).1
  remember-IsCopying m s holds (others, copies) = (
    (λ q n. store.remember_others plan.target_profile m.content m.session_id s q n ∙ others q n),
    elim (store.remember_adds plan.target_profile m.content m.session_id s) [
      | inl same ↦ rw same copies
      | inr (id, more) ↦ rw more (holds, copies)
    ],
  )

  copy_memories-IsCopying :
      (ms : List Memory) (seen target : List Text) (copied already : ℕ) (s : S)
      → All (λ m. P m.content m.session_id) ms
      → IsCopying s
      → IsCopying (copy_memories digest client plan ms seen target copied already s).1
  unfolding copy_memories
  copy_memories-IsCopying [] seen target copied already s all w = w
  copy_memories-IsCopying (m ∷ ms) seen target copied already s (holds, all) w =
      let f = fingerprint_of digest m in
      elim (Bool-cases (contains f seen || contains f target)) [
        | inl known ↦
            rw known (copy_memories-IsCopying ms (add f seen) target copied (already + 1) s all w)
        | inr new ↦ rw new (
            continue-Keeps IsCopying
              (λ _.
                copy_memories digest client plan ms (add f seen) (add f target) (copied + 1)
                  already)
              (client.remember plan.target_profile m.content m.session_id s)
              (remember-IsCopying m s holds w)
              (λ u e.
                copy_memories-IsCopying ms (add f seen) (add f target) (copied + 1) already _ all
                  (remember-IsCopying m s holds w)))
      ]

  migrate_between-IsCopying :
      (source target : List Memory) (s : S)
      → All (λ m. P m.content m.session_id) source
      → IsCopying s
      → IsCopying (migrate_between digest client plan source target s).1
  unfolding migrate_between
  migrate_between-IsCopying source target s all w = throw_if-Keeps IsCopying _ _ _ s w (λ same.
      continue-Keeps IsCopying _ _
        (copy_memories-IsCopying source [] (fingerprint_set digest target) 0 0 s all w)
        (λ counts copied.
          then_list plan.source_profile _ _
            (copy_memories-IsCopying source [] (fingerprint_set digest target) 0 0 s all w)
            (λ after t w'. throw_if-Keeps IsCopying _ _ _ t w' (λ unchanged.
              then_list plan.target_profile _ t w'
                (λ last u w''. throw_if-Keeps IsCopying _ _ _ u w'' (λ verified. w''))))))

  migrate-IsCopying :
      (confirmed : Text)
      → plan.source_profile ≢ plan.target_profile
      → All (λ m. P m.content m.session_id) (view start plan.source_profile)
      → IsCopying start
      → IsCopying (migrate_legacy_scoped_profile digest client plan confirmed start).1
  unfolding migrate_legacy_scoped_profile
  migrate-IsCopying confirmed other all w = throw_if-Keeps IsCopying _ _ _ start w (λ same.
      continue-Keeps IsCopying _ _ (list-IsCopying plan.source_profile start w) (λ source listed.
        let w' = list-IsCopying plan.source_profile start w in
        let read = store.list_reads plan.source_profile start source listed in
        throw_if-Keeps IsCopying _ _ _ _ w' (λ full.
          then_list plan.target_profile _ _ w'
            (λ target t w''. migrate_between-IsCopying source target t (rw read all) w''))))

  pub migrate_copies_only :
      (confirmed : Text)
      → plan.source_profile ≢ plan.target_profile
      → All (λ m. P m.content m.session_id) (view start plan.source_profile)
      → All (λ m. P m.content m.session_id) (view start plan.target_profile)
      → IsCopying (migrate_legacy_scoped_profile digest client plan confirmed start).1
  migrate_copies_only confirmed other from to =
      migrate-IsCopying confirmed other from ((λ q n. refl), to)

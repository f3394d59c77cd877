-- ===== src/MemoryWorker/Migration/Retry.antt =====
-- A migration that was interrupted can be run again.
use memory_server_worker.Prelude.{
  ◌<◌, true, Option, List, length, contains, All-map, ok, ◌≡◌, ◌≢◌, sym, ◌∙◌,
}
use memory_server_worker.Texts.{Text, text_eq}
use memory_server_worker.MemoryWorker.Migration.{
  Plan, Memory, Summary, Client, is_confirmed, has_all, fingerprint_of, memory_fingerprint,
  fingerprint_set, migrate_legacy_scoped_profile,
}
use memory_server_worker.MemoryWorker.Migration.Sets.{all_rows-fingerprint_set}
use memory_server_worker.MemoryWorker.Migration.Stores.{IsStore, migrate_copies_only}
use memory_server_worker.MemoryWorker.Migration.Fingerprints.{
  has_fingerprint, contains-fingerprint_set, own_fingerprints, has_all-fingerprint_set,
}
use memory_server_worker.MemoryWorker.Migration.Success.{IsReliable, migrate_returns}

module _ {ℓ} {S : Type ℓ} (digest : List (Option Text) → Text) (flaky client : Client S)
    (view : S → Text → List Memory) (store : IsStore flaky view) (reliable : IsReliable client view)
    (plan : Plan) where
  pub migrate_again :
      (confirmed again : Text) (s : S)
      → plan.source_profile ≢ plan.target_profile
      → is_confirmed plan again ≡ true
      → 0 < length (view s plan.source_profile)
      → has_all
          (fingerprint_set digest (view s plan.target_profile))
          (fingerprint_set digest (view s plan.source_profile))
        ≡ true
      → (done : Summary) × ((migrate_legacy_scoped_profile digest client plan again
            (migrate_legacy_scoped_profile digest flaky plan confirmed s).1).0
          ≡ ok done)
  migrate_again confirmed again s other owner full within =
      let source = view s plan.source_profile in
      let was =
        all_rows-fingerprint_set digest (λ f. contains f (fingerprint_set digest source))
          (view s plan.target_profile) within in
      let known =
        All-map (view s plan.target_profile)
          (λ m h. sym (contains-fingerprint_set digest (fingerprint_of digest m) source) ∙ h) was in
      let (others, copies) =
        migrate_copies_only digest flaky view store plan
          (λ content session_id.
            has_fingerprint digest (memory_fingerprint digest content session_id) source ≡ true)
          s confirmed other (own_fingerprints digest source) known in
      let kept = others plan.source_profile other in
      let t = (migrate_legacy_scoped_profile digest flaky plan confirmed s).1 in
      migrate_returns digest client view reliable plan other again t owner (rw kept full)
        (rw kept (has_all-fingerprint_set digest (view t plan.target_profile) source copies))

-- ===== src/MemoryWorker/Migration/Sets.antt =====
-- The sets of fingerprints.
use memory_server_worker.Prelude.{
  Bool, true, Option, List, [], ◌∷◌, ◌==◌, all_rows, contains, All, ◌≡◌, arith, Bool-cases, inl,
  inr,
}
use memory_server_worker.Texts.{Text, text_eq}
use memory_server_worker.MemoryWorker.Migration.{
  Memory, add, add_all, fingerprint_of, fingerprint_set,
}

pub all_rows-contains :
    (p : Text → Bool) (f : Text) (set : List Text)
    → contains f set ≡ true
    → all_rows p set ≡ true
    → p f ≡ true
all_rows-contains p f [] h all = absurd (ground arith)
all_rows-contains p f (g ∷ set) h all = elim (Bool-cases (f == g)) [
  | inl same ↦ rw ((text_eq.beq_iff f g).0 same) (ground arith)
  | inr other ↦ all_rows-contains p f set (ground arith) (ground arith)
]

all_rows-add :
    (p : Text → Bool) (f : Text) (set : List Text)
    → all_rows p (add f set) ≡ true
    → (p f ≡ true) × (all_rows p set ≡ true)
all_rows-add p f set h = elim (Bool-cases (contains f set)) [
  | inl known ↦ (all_rows-contains p f set known (ground arith), ground arith)
  | inr new ↦ (ground arith, ground arith)
]

module _ (digest : List (Option Text) → Text) (p : Text → Bool) where
  all_rows-add_all :
      (ms : List Memory) (set : List Text)
      → all_rows p (add_all digest ms set) ≡ true
      → All (λ m. p (fingerprint_of digest m) ≡ true) ms × (all_rows p set ≡ true)
  all_rows-add_all [] set h = (tt, h)
  all_rows-add_all (m ∷ ms) set h =
      let (all, added) = all_rows-add_all ms (add (fingerprint_of digest m) set) h in
      let (one, rest) = all_rows-add p (fingerprint_of digest m) set added in ((one, all), rest)

  -- A test that the whole set passes is passed by the fingerprint of every memory.
  pub all_rows-fingerprint_set :
      (ms : List Memory)
      → all_rows p (fingerprint_set digest ms) ≡ true
      → All (λ m. p (fingerprint_of digest m) ≡ true) ms
  all_rows-fingerprint_set ms h = (all_rows-add_all ms [] h).0

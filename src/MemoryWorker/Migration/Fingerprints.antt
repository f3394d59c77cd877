-- ===== src/MemoryWorker/Migration/Fingerprints.antt =====
-- The set of the fingerprints of some memories has just these.
use memory_server_worker.Prelude.{
  Bool, true, false, ◌||◌, Option, List, [], ◌∷◌, ◌==◌, nat_eq, all_rows, contains, All, All-map,
  ◌≡◌, refl, sym, ◌∙◌, arith, Bool-cases, inl, inr,
}
use mathlib.Core.Path.{subst}
use memory_server_worker.Texts.{Text, text_eq}
use memory_server_worker.MemoryWorker.Migration.{
  Memory, add, add_all, has_all, fingerprint_of, fingerprint_set,
}

-- The memory with this fingerprint is in the list.
abbrev pub has_fingerprint : (digest : List (Option Text) → Text) → Text → List Memory → Bool
has_fingerprint digest f [] = false
has_fingerprint digest f (m ∷ ms) = f == fingerprint_of digest m || has_fingerprint digest f ms

pub text_same : (a : Text) → (a == a) ≡ true
text_same a = (text_eq.beq_iff a a).1 refl

contains-add : (f g : Text) (set : List Text) → contains f (add g set) ≡ (f == g || contains f set)
contains-add f g set = elim (Bool-cases (contains g set)) [
  | inl known ↦ elim (Bool-cases (f == g)) [
    | inl same ↦
        rw (known, same)
          (subst (λ x. contains x set ≡ true) (sym ((text_eq.beq_iff f g).0 same)) known)
    | inr other ↦ rw (known, other) refl
  ]
  | inr new ↦ elim (Bool-cases (f == g)) [
    | inl same ↦ rw (new, same) refl
    | inr other ↦ rw (new, other) refl
  ]
]

pub all_rows-add_complete :
    (p : Text → Bool) (f : Text) (set : List Text)
    → p f ≡ true
    → all_rows p set ≡ true
    → all_rows p (add f set) ≡ true
all_rows-add_complete p f set one h = elim (Bool-cases (contains f set)) [
  | inl known ↦ rw known h
  | inr new ↦ rw (new, one) h
]

module _ (digest : List (Option Text) → Text) where
  contains-add_all :
      (f : Text) (ms : List Memory) (set : List Text)
      → contains f (add_all digest ms set) ≡ (has_fingerprint digest f ms || contains f set)
  contains-add_all f [] set = refl
  contains-add_all f (m ∷ ms) set =
      let rest = contains-add_all f ms (add (fingerprint_of digest m) set) in
      let one = contains-add f (fingerprint_of digest m) set in rest ∙ ground arith

  pub contains-fingerprint_set :
      (f : Text) (ms : List Memory)
      → contains f (fingerprint_set digest ms) ≡ has_fingerprint digest f ms
  contains-fingerprint_set f ms = let rest = contains-add_all f ms [] in ground arith

  -- If every fingerprint passes the test, the set passes it.
  pub all_rows-add_all_complete :
      (p : Text → Bool) (ms : List Memory) (set : List Text)
      → All (λ m. p (fingerprint_of digest m) ≡ true) ms
      → all_rows p set ≡ true
      → all_rows p (add_all digest ms set) ≡ true
  all_rows-add_all_complete p [] set all h = h
  all_rows-add_all_complete p (m ∷ ms) set (one, all) h =
      all_rows-add_all_complete p ms (add (fingerprint_of digest m) set) all
        (all_rows-add_complete p (fingerprint_of digest m) set one h)

  pub own_fingerprints :
      (ms : List Memory) → All (λ m. has_fingerprint digest (fingerprint_of digest m) ms ≡ true) ms
  own_fingerprints [] = tt
  own_fingerprints (m ∷ ms) = (
    rw (text_same (fingerprint_of digest m)) refl,
    All-map ms (λ k h. ground arith) (own_fingerprints ms),
  )

  pub has_all-fingerprint_set :
      (ms ns : List Memory)
      → All (λ m. has_fingerprint digest (fingerprint_of digest m) ns ≡ true) ms
      → has_all (fingerprint_set digest ms) (fingerprint_set digest ns) ≡ true
  has_all-fingerprint_set ms ns all =
      all_rows-add_all_complete (λ f. contains f (fingerprint_set digest ns)) ms []
        (All-map ms (λ m h. contains-fingerprint_set (fingerprint_of digest m) ns ∙ h) all) refl

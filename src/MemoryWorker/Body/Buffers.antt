-- ===== src/MemoryWorker/Body/Buffers.antt =====
-- The growing buffer of `readBoundedBody` holds the bytes read so far.
use memory_server_worker.Prelude.{
  ℕ, zero, suc, ◌+◌, ◌-◌, ◌≤◌, some, List, [], ◌∷◌, ◌++◌, ltb, ◌==◌, nat_eq, take, length,
  length-append, length-take-min, ◌≡◌, refl, ap, sym, ◌∙◌, arith, Bool-cases, inl, inr,
}
use memory_server_worker.MemoryWorker.Body.{
  zeros, drop, set_at, next_capacity, expanded, append_chunk, finished,
}

length-zeros : (n : ℕ) → length (zeros n) ≡ n
length-zeros zero = refl
length-zeros (suc n) = ground (arith, length-zeros n)

module _ {ℓ} {A : Type ℓ} where
  pub take-all : (n : ℕ) (xs : List A) → n ≡ length xs → take n xs ≡ xs
  take-all zero [] e = refl
  take-all zero (x ∷ xs) e = absurd (omega arith)
  take-all (suc n) [] e = refl
  take-all (suc n) (x ∷ xs) e = ap (λ ys. x ∷ ys) (take-all n xs (omega arith))

  take-front : (n : ℕ) (xs ys : List A) → n ≡ length xs → take n (xs ++ ys) ≡ xs
  take-front zero [] ys e = refl
  take-front zero (x ∷ xs) ys e = absurd (omega arith)
  take-front (suc n) [] ys e = absurd (omega arith)
  take-front (suc n) (x ∷ xs) ys e = ap (λ zs. x ∷ zs) (take-front n xs ys (omega arith))

  pub append_assoc : (xs ys zs : List A) → (xs ++ ys) ++ zs ≡ xs ++ (ys ++ zs)
  append_assoc [] ys zs = refl
  append_assoc (x ∷ xs) ys zs = ap (λ r. x ∷ r) (append_assoc xs ys zs)

  pub append_nil : (xs : List A) → xs ++ [] ≡ xs
  append_nil [] = refl
  append_nil (x ∷ xs) = ap (λ r. x ∷ r) (append_nil xs)

length-drop : (n : ℕ) (xs : List ℕ) → length (drop n xs) ≡ length xs - n
length-drop zero xs = ground arith
length-drop (suc n) [] = ground arith
length-drop (suc n) (x ∷ xs) = ground (arith, length-drop n xs)

-- The buffer starts with the data, and is no longer than the limit.
pub record IsBuffer (max_bytes : ℕ) (data_read bytes : List ℕ) : Type 0 where
  pub prefix : take (length data_read) bytes ≡ data_read
  pub room : length data_read ≤ length bytes
  pub within : length bytes ≤ max_bytes

pub initial-IsBuffer : (max_bytes n : ℕ) → n ≤ max_bytes → IsBuffer max_bytes [] (zeros n)
initial-IsBuffer max_bytes n le = record {
  prefix = refl;
  room = ground arith;
  within = omega (arith, length-zeros n);
}

set_at_fits :
    (bytes value : List ℕ) (offset : ℕ)
    → offset + length value ≤ length bytes
    → (r : List ℕ) × (set_at bytes value offset ≡ some r)
      × (take (offset + length value) r ≡ take offset bytes ++ value)
      × (length r ≡ length bytes)
set_at_fits bytes value offset fits =
    let rest = drop (offset + length value) bytes in
    let front = length-take-min offset bytes in
    let whole = length-append (take offset bytes) (value ++ rest) in
    let more = length-append value rest in
    let both = length-append (take offset bytes) value in
    let dropped = length-drop (offset + length value) bytes in
    (
      take offset bytes ++ (value ++ rest),
      ground arith,
      rw (← append_assoc (take offset bytes) value rest)
          (take-front (offset + length value) (take offset bytes ++ value) rest (omega arith)),
      omega arith,
    )

expanded-IsBuffer :
    (max_bytes next : ℕ) (data_read bytes : List ℕ)
    → IsBuffer max_bytes data_read bytes
    → length data_read ≤ next
    → next ≤ max_bytes
    → (room : List ℕ) × (expanded max_bytes next (length data_read) bytes ≡ some room)
      × IsBuffer max_bytes data_read room
      × (next ≤ length room)
expanded-IsBuffer max_bytes next data_read bytes w le limit =
    elim (Bool-cases (ltb (length bytes) next)) [
      | inr e ↦ (bytes, ground arith, w, ground arith)
      | inl e ↦
          let capacity = next_capacity max_bytes next (length bytes) in
          let size = length-zeros capacity in
          let (r, written, front, same) = set_at_fits (zeros capacity) data_read 0 (ground arith) in
          let plus : 0 + length data_read ≡ length data_read = omega arith in
          (
            r,
            rw (e, w.prefix) written,
            record { prefix = rw plus at front; room = ground arith; within = ground arith },
            ground arith,
          )
    ]

pub append_chunk-IsBuffer :
    (max_bytes : ℕ) (data_read bytes value : List ℕ)
    → IsBuffer max_bytes data_read bytes
    → length data_read + length value ≤ max_bytes
    → (room : List ℕ) × (append_chunk max_bytes (length data_read) bytes value ≡ some room)
      × IsBuffer max_bytes (data_read ++ value) room
append_chunk-IsBuffer max_bytes data_read bytes value w limit =
    let (large, grown, still, fits) =
      expanded-IsBuffer max_bytes (length data_read + length value) data_read bytes w (omega arith)
        limit in
    let (r, written, front, same) = set_at_fits large value (length data_read) fits in
    let joined = length-append data_read value in
    (
      r,
      rw (append_chunk, grown) written,
      record {
        prefix = rw joined (front ∙ ap (λ ys. ys ++ value) still.prefix);
        room = omega arith;
        within = omega (arith, still.within);
      },
    )

pub finished-IsBuffer :
    {max_bytes : ℕ} (data_read bytes : List ℕ)
    → IsBuffer max_bytes data_read bytes
    → finished (length data_read) bytes ≡ data_read
finished-IsBuffer data_read bytes w = elim (Bool-cases (length data_read == length bytes)) [
  | inl e ↦ rw e (sym (take-all (length data_read) bytes (ground arith)) ∙ w.prefix)
  | inr e ↦ rw e w.prefix
]

-- ===== src/MemoryWorker/Body/Reading.antt =====
-- `readBoundedBody` against its description by the chunks of the stream, and its termination.
use memory_server_worker.Prelude.{
  ℕ, zero, suc, ◌+◌, ◌≤◌, ◌<◌, min, Bool, true, false, some, List, [], ◌∷◌, ◌++◌, ltb, nat_eq,
  length, length-append, if◌then◌else◌, ◌≡◌, refl, arith, Bool-cases, inl, inr, ◌⊎◌, Result, ok,
  err, Option-cases,
}
use memory_server_worker.MemoryWorker.Body.{
  Read, chunk, done, broken, Source, missing, too_large, unreadable, Reason, zeros, append_chunk,
  read_loop, declares_more, read_bounded_body, finished, initial_body_buffer_bytes,
}
use memory_server_worker.MemoryWorker.Body.Buffers.{
  IsBuffer, initial-IsBuffer, append_chunk-IsBuffer, finished-IsBuffer, append_assoc, append_nil,
}

abbrev pub concat : List (List ℕ) → List ℕ
concat [] = []
concat (c ∷ cs) = c ++ concat cs

-- From the read `at` on, the stream gives these chunks, and then its end, or an exception if it is
-- not complete.
abbrev pub Gives : (reads : ℕ → Read) (at : ℕ) → List (List ℕ) → (complete : Bool) → Type 0
Gives reads at [] true = reads at ≡ done
Gives reads at [] false = reads at ≡ broken
Gives reads at (c ∷ cs) complete = (reads at ≡ chunk c) × Gives reads (at + 1) cs complete

abbrev pub verdict : (max_bytes : ℕ) → List ℕ → (complete : Bool) → Result Reason (List ℕ)
verdict max_bytes bytes complete =
    if ltb max_bytes (length bytes)
    then err too_large
    else if complete
    then ok bytes
    else err unreadable

read_loop-Gives :
    (fuel max_bytes : ℕ) (reads : ℕ → Read) (at : ℕ) (data_read bytes : List ℕ)
    (chunks : List (List ℕ)) (complete : Bool)
    → IsBuffer max_bytes data_read bytes
    → Gives reads at chunks complete
    → length chunks < fuel
    → read_loop fuel max_bytes reads at (length data_read) bytes
      ≡ some (verdict max_bytes (data_read ++ concat chunks) complete)
unfolding read_loop
read_loop-Gives zero max_bytes reads at data_read bytes chunks complete w given enough =
    absurd (omega arith)
read_loop-Gives (suc fuel) max_bytes reads at data_read bytes [] true w given enough =
    let whole = append_nil data_read in
    let left = finished-IsBuffer data_read bytes w in
    let small : length data_read ≤ max_bytes = omega (arith, w.room, w.within) in ground arith
read_loop-Gives (suc fuel) max_bytes reads at data_read bytes [] false w given enough =
    let whole = append_nil data_read in
    let small : length data_read ≤ max_bytes = omega (arith, w.room, w.within) in ground arith
read_loop-Gives (suc fuel) max_bytes reads at data_read bytes (c ∷ cs) complete w (given, later)
      enough =
    elim (Bool-cases (ltb max_bytes (length data_read + length c))) [
      | inl over ↦
          ground (arith, length-append data_read (c ++ concat cs), length-append c (concat cs))
      | inr under ↦
          let (room, appended, still) =
            append_chunk-IsBuffer max_bytes data_read bytes c w (ground arith) in
          let joined = length-append data_read c in
          let assoc = append_assoc data_read c (concat cs) in
          let rest =
            read_loop-Gives fuel max_bytes reads (at + 1) (data_read ++ c) room cs complete still
              later (omega arith) in
          ground arith
    ]

-- A body whose stream gives these chunks and then ends, or breaks, is read within one more round of
-- the loop than it has chunks. It is too large if the header or the chunks together say so, it is
-- unreadable if the stream breaks before that, and else its bytes are those of the chunks.
pub read_bounded_body-Gives :
    (fuel : ℕ) (request : Source) (max_bytes : ℕ) (reads : ℕ → Read) (chunks : List (List ℕ))
    (complete : Bool)
    → request.body ≡ some reads
    → Gives reads 0 chunks complete
    → length chunks < fuel
    → read_bounded_body fuel request max_bytes
      ≡ some (
          if declares_more request.content_length max_bytes
          then err too_large
          else verdict max_bytes (concat chunks) complete)
unfolding read_bounded_body
read_bounded_body-Gives fuel request max_bytes reads chunks complete body given enough =
    elim (Bool-cases (declares_more request.content_length max_bytes)) [
      | inl more ↦ rw more refl
      | inr less ↦
          rw (less, body)
            (read_loop-Gives fuel max_bytes reads 0 []
              (zeros (min max_bytes initial_body_buffer_bytes)) chunks complete
              (initial-IsBuffer max_bytes (min max_bytes initial_body_buffer_bytes) (omega arith))
              given enough)
    ]

-- No read gives an empty chunk.
abbrev pub HasFullChunks : (ℕ → Read) → Type 0
HasFullChunks reads = (at : ℕ) (c : List ℕ) → reads at ≡ chunk c → 0 < length c

Read-cases : (r : Read) → ((r ≡ done) ⊎ (r ≡ broken)) ⊎ ((c : List ℕ) × (r ≡ chunk c))
Read-cases done = inl (inl refl)
Read-cases broken = inl (inr refl)
Read-cases (chunk c) = inr (c, refl)

read_loop-returns :
    (fuel max_bytes : ℕ) (reads : ℕ → Read) (at total : ℕ) (bytes : List ℕ)
    → HasFullChunks reads
    → total ≤ max_bytes
    → max_bytes < total + fuel
    → (r : Result Reason (List ℕ)) × (read_loop fuel max_bytes reads at total bytes ≡ some r)
unfolding read_loop
read_loop-returns zero max_bytes reads at total bytes full le enough = absurd (omega arith)
read_loop-returns (suc fuel) max_bytes reads at total bytes full le enough =
    elim (Read-cases (reads at)) [
      | inl (inl e) ↦ (ok (finished total bytes), ground arith)
      | inl (inr e) ↦ (err unreadable, ground arith)
      | inr (c, e) ↦ elim (Bool-cases (ltb max_bytes (total + length c))) [
        | inl over ↦ (err too_large, ground arith)
        | inr under ↦ elim (Option-cases (append_chunk max_bytes total bytes c)) [
          | inl failed ↦ (err unreadable, ground arith)
          | inr (room, appended) ↦
              let some_byte = full at c e in
              let (r, returned) =
                read_loop-returns fuel max_bytes reads (at + 1) (total + length c) room full
                  (ground arith) (omega arith) in
              (r, ground arith)
        ]
      ]
    ]

-- Whatever the stream of a request gives, without an end too, the loop stops, after at most one more
-- round than the limit has bytes, if no chunk is empty.
pub read_bounded_body_returns :
    (request : Source) (max_bytes : ℕ)
    → ((reads : ℕ → Read) → request.body ≡ some reads → HasFullChunks reads)
    → (r : Result Reason (List ℕ)) × (read_bounded_body (max_bytes + 1) request max_bytes ≡ some r)
unfolding read_bounded_body
read_bounded_body_returns request max_bytes full =
    elim (Bool-cases (declares_more request.content_length max_bytes)) [
      | inl more ↦ (err too_large, rw more refl)
      | inr less ↦ elim (Option-cases request.body) [
        | inl e ↦ (err missing, rw (less, e) refl)
        | inr (reads, e) ↦
            let (r, returned) =
              read_loop-returns (max_bytes + 1) max_bytes reads 0 0
                (zeros (min max_bytes initial_body_buffer_bytes)) (full reads e) (omega arith)
                (omega arith) in
            (r, rw (less, e) returned)
      ]
    ]

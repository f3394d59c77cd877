-- ===== src/MemoryWorker/Body.antt =====
-- Bodies with a limit on their size (packages/memory-worker/src/body.ts). A stream is what each of
-- its reads gives, in order, and a text of the body is its bytes. `fuel` is a bound on the reads.
pub mod Buffers
pub mod Reading
pub mod Json
use Prim.Native.Nat.{max}
use mathlib.Core.Option
use memory_server_worker.Prelude.{
  ℕ, zero, suc, ◌+◌, ◌-◌, ◌*◌, min, String, Bool, true, false, ◌||◌, Option, none, some, List, [],
  ◌∷◌, ◌++◌, ltb, leb, ◌==◌, nat_eq, take, length, if◌then◌else◌, Result, ok, err, ◌≡◌, refl,
}

-- What one call of `reader.read()` gives: a chunk, the end, or an exception.
pub data Read : Type 0 where
  chunk : List ℕ → Read
  done : Read
  broken : Read

-- The number that a `content-length` header is read as. Only a finite one counts, and of it whether
-- it is above a limit: the least natural number that is not below it tells.
pub data Number : Type 0 where
  finite : ℕ → Number
  not_finite : Number

pub record Source : Type 0 where
  pub content_length : Option Number
  pub body : Option (ℕ → Read)

pub data Reason : Type 0 where
  missing too_large unreadable : Reason

-- A `Uint8Array`: of length n, of zeros.
abbrev pub zeros : ℕ → List ℕ
zeros zero = []
zeros (suc n) = 0 ∷ zeros n

abbrev pub drop : ℕ → List ℕ → List ℕ
drop zero xs = xs
drop (suc n) [] = []
drop (suc n) (x ∷ xs) = drop n xs

-- bytes.set(value, offset), which throws if the value does not fit.
abbrev pub set_at : (bytes value : List ℕ) (offset : ℕ) → Option (List ℕ)
set_at bytes value offset =
    if ltb (length bytes) (offset + length value)
    then none
    else some (take offset bytes ++ (value ++ drop (offset + length value) bytes))

abbrev pub next_capacity : (max_bytes next_total capacity : ℕ) → ℕ
next_capacity max_bytes next_total capacity = min max_bytes (max next_total (max 1 (capacity * 2)))

-- The buffer, made larger if the next total does not fit.
abbrev pub expanded : (max_bytes next_total total : ℕ) (bytes : List ℕ) → Option (List ℕ)
expanded max_bytes next_total total bytes =
    if ltb (length bytes) next_total
    then set_at (zeros (next_capacity max_bytes next_total (length bytes))) (take total bytes) 0
    else some bytes

-- One round of the loop with a chunk that is within the limit.
abbrev pub append_chunk : (max_bytes total : ℕ) (bytes value : List ℕ) → Option (List ℕ)
append_chunk max_bytes total bytes value =
    elim (expanded max_bytes (total + length value) total bytes) [
      | none ↦ none
      | some room ↦ set_at room value total
    ]

abbrev pub finished : ℕ → List ℕ → List ℕ
finished total bytes = if total == length bytes then bytes else take total bytes

-- The loop from read `at` on.
unfoldable pub read_loop :
    (fuel max_bytes : ℕ) (reads : ℕ → Read) (at total : ℕ) (bytes : List ℕ)
    → Option (Result Reason (List ℕ))
read_loop zero max_bytes reads at total bytes = none
read_loop (suc fuel) max_bytes reads at total bytes = elim (reads at) [
  | done ↦ some (ok (finished total bytes))
  | broken ↦ some (err unreadable)
  | chunk value ↦
      if ltb max_bytes (total + length value)
      then some (err too_large)
      else elim (append_chunk max_bytes total bytes value) [
        | none ↦ some (err unreadable)
        | some room ↦ read_loop fuel max_bytes reads (at + 1) (total + length value) room
      ]
]

abbrev pub initial_body_buffer_bytes : ℕ
initial_body_buffer_bytes = 16 * 1024

abbrev pub declares_more : Option Number → ℕ → Bool
declares_more none max_bytes = false
declares_more (some not_finite) max_bytes = false
declares_more (some (finite n)) max_bytes = ltb max_bytes n

abbrev pub read_stream : (fuel : ℕ) → Option (ℕ → Read) → ℕ → Option (Result Reason (List ℕ))
read_stream fuel none max_bytes = some (err missing)
read_stream fuel (some reads) max_bytes =
    read_loop fuel max_bytes reads 0 0 (zeros (min max_bytes initial_body_buffer_bytes))

unfoldable pub read_bounded_body :
    (fuel : ℕ) (request : Source) (max_bytes : ℕ) → Option (Result Reason (List ℕ))
read_bounded_body fuel request max_bytes =
    if declares_more request.content_length max_bytes
    then some (err too_large)
    else read_stream fuel request.body max_bytes

-- What a request is answered with if its body is no JSON text.
pub record Refusal : Type 0 where
  pub status : ℕ
  pub error : String

abbrev pub refusal_of : Reason → Refusal
refusal_of too_large = record { status = 413; error = "request body too large" }
refusal_of missing = record { status = 400; error = "JSON request body is required" }
refusal_of unreadable = record { status = 400; error = "invalid request body" }

-- `decode` stands for a `TextDecoder` for UTF-8 that is fatal, and `parse` for `JSON.parse`; both give
-- nothing where they throw.
module _ {Text Json : Type 0} (decode : List ℕ → Option Text) (parse : Text → Option Json) where
  abbrev pub json_of : List ℕ → Option Json
  json_of bytes = elim (decode bytes) [ none ↦ none | some text ↦ parse text ]

  abbrev pub request_value : Result Reason (List ℕ) → Result Refusal Json
  request_value (err reason) = err (refusal_of reason)
  request_value (ok bytes) = elim (json_of bytes) [
    | none ↦ err (record { status = 400; error = "invalid JSON request body" })
    | some value ↦ ok value
  ]

  unfoldable pub read_json_request_body :
      (fuel : ℕ) (request : Source) (max_bytes : ℕ) → Option (Result Refusal Json)
  read_json_request_body fuel request max_bytes =
      Option.map request_value (read_bounded_body fuel request max_bytes)

  abbrev pub response_value : Result Reason (List ℕ) → Option Json
  response_value (err reason) = none
  response_value (ok bytes) = json_of bytes

  unfoldable pub read_json_response_body :
      (fuel : ℕ) (response : Source) (max_bytes : ℕ) → Option (Option Json)
  read_json_response_body fuel response max_bytes =
      Option.map response_value (read_bounded_body fuel response max_bytes)

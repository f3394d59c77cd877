-- ===== src/MemoryWorker/Body/Json.antt =====
-- What a request gets for its JSON body.
use memory_server_worker.Prelude.{
  ℕ, ◌<◌, Bool, true, false, Option, none, some, List, length, ltb, ◌≡◌, ◌↔◌, ◌⊎◌, refl, arith,
  Bool-cases, inl, inr, if◌then◌else◌, Result, ok, err, Option-cases,
}
use memory_server_worker.MemoryWorker.Body.{
  Read, Source, Number, finite, not_finite, Refusal, unreadable, declares_more,
  read_json_request_body, request_value, json_of,
}
use memory_server_worker.MemoryWorker.Body.Reading.{concat, Gives, read_bounded_body-Gives}

-- The header declares more bytes than the limit, or the chunks have more.
abbrev pub IsOver : Source → (max_bytes : ℕ) → List (List ℕ) → Type 0
IsOver request max_bytes chunks =
    ((n : ℕ) × (request.content_length ≡ some (finite n)) × (max_bytes < n))
    ⊎ max_bytes < length (concat chunks)

declares_more_sound :
    (declared : Option Number) (max_bytes : ℕ)
    → declares_more declared max_bytes ≡ true
    → (n : ℕ) × (declared ≡ some (finite n)) × (max_bytes < n)
declares_more_sound none max_bytes h = absurd (ground arith)
declares_more_sound (some not_finite) max_bytes h = absurd (ground arith)
declares_more_sound (some (finite n)) max_bytes h = (n, refl, ground arith)

not-IsOver :
    (request : Source) (max_bytes : ℕ) (chunks : List (List ℕ))
    → declares_more request.content_length max_bytes ≡ false
    → ltb max_bytes (length (concat chunks)) ≡ false
    → ¬ (IsOver request max_bytes chunks)
not-IsOver request max_bytes chunks less fits over = elim over [
  | inl (n, e, more) ↦ absurd (ground arith)
  | inr more ↦ absurd (ground arith)
]

module _ {Text Json : Type 0} (decode : List ℕ → Option Text) (parse : Text → Option Json) where
  -- The bytes are the text of a value.
  abbrev pub Encodes : List ℕ → Json → Type 0
  Encodes bytes value = (text : Text) × (decode bytes ≡ some text) × (parse text ≡ some value)

  -- The request is refused with this status.
  abbrev pub Refuses : Option (Result Refusal Json) → (status : ℕ) → Type 0
  Refuses result status = (r : Refusal) × (result ≡ some (err r)) × (r.status ≡ status)

  json_of_sound :
      (bytes : List ℕ) {value : Json}
      → json_of decode parse bytes ≡ some value
      → Encodes bytes value
  json_of_sound bytes h = elim (Option-cases (decode bytes)) [
    | inl fails ↦ absurd (ground arith)
    | inr (text, e) ↦ (text, e, ground arith)
  ]

  json_of_complete :
      (bytes : List ℕ) {value : Json}
      → Encodes bytes value
      → json_of decode parse bytes ≡ some value
  json_of_complete bytes (text, e, parsed) = rw (json_of, e) parsed

  -- What the three answers mean, for a body whose stream gives these bytes and then ends or breaks.
  pub record IsAnswer (Over : Type 0) (complete : Bool) (bytes : List ℕ)
      (result : Option (Result Refusal Json)) : Type 0 where
    pub accepted :
        (value : Json)
        → (result ≡ some (ok value)) ↔ (¬ Over) × (complete ≡ true) × Encodes bytes value
    pub too_large : Refuses result 413 ↔ Over
    pub invalid :
        Refuses result 400 ↔ (¬ Over) × ((value : Json) → complete ≡ true → Encodes bytes value → ⊥)

  status_of :
      {n m : ℕ} (r q : Refusal)
      → ◌≡◌ {A = Option (Result Refusal Json)} (some (err r)) (some (err q))
      → r.status ≡ n
      → q.status ≡ m
      → n ≡ m
  status_of r q e here there = ground arith

  refused-IsAnswer :
      (Over : Type 0) (complete : Bool) (bytes : List ℕ) (r : Refusal)
      → Over
      → r.status ≡ 413
      → IsAnswer Over complete bytes (some (err r))
  refused-IsAnswer Over complete bytes r over status = record {
    accepted = λ value. ((λ h. absurd (ground arith)), (λ h. absurd (h.0 over)));
    too_large = ((λ h. over), (λ h. (r, refl, status)));
    invalid = (
      (λ (q, e, other). absurd (omega (arith, status_of r q e status other))),
      (λ h. absurd (h.0 over)),
    );
  }

  invalid-IsAnswer :
      (Over : Type 0) (complete : Bool) (bytes : List ℕ) (r : Refusal)
      → ¬ Over
      → ((value : Json) → complete ≡ true → Encodes bytes value → ⊥)
      → r.status ≡ 400
      → IsAnswer Over complete bytes (some (err r))
  invalid-IsAnswer Over complete bytes r small fails status = record {
    accepted = λ value. ((λ h. absurd (ground arith)), (λ h. absurd (fails value h.1 h.2)));
    too_large = (
      (λ (q, e, other). absurd (omega (arith, status_of r q e status other))),
      (λ h. absurd (small h)),
    );
    invalid = ((λ h. (small, fails)), (λ h. (r, refl, status)));
  }

  verdict-IsAnswer :
      (Over : Type 0) (complete : Bool) (bytes : List ℕ)
      → ¬ Over
      → IsAnswer Over complete bytes
          (some (request_value decode parse (if complete then ok bytes else err unreadable)))
  verdict-IsAnswer Over false bytes small =
      invalid-IsAnswer Over false bytes _ small (λ value h e. ground arith) refl
  verdict-IsAnswer Over true bytes small = elim (Option-cases (json_of decode parse bytes)) [
    | inl failed ↦
        rw (request_value, failed)
          (invalid-IsAnswer Over true bytes _ small
            (λ value h e. absurd (ground (arith, json_of_complete bytes e))) refl)
    | inr (value, e) ↦
        rw (request_value, e)
          (record {
            accepted = λ v. (
              (λ h. (small, refl, json_of_sound bytes (ground (arith, e)))),
              (λ h. ground (arith, e, json_of_complete bytes h.2)),
            );
            too_large = ((λ h. absurd (ground arith)), (λ h. absurd (small h)));
            invalid = (
              (λ h. absurd (ground arith)),
              (λ h. absurd (h.1 value refl (json_of_sound bytes e))),
            );
          })
  ]

  -- Take a body whose stream gives these chunks, and then ends or breaks. The request gives a value
  -- exactly if neither its header nor its chunks have more bytes than the limit, the stream ends,
  -- and the bytes are the text of this value. It is refused with status 413 exactly if its header or
  -- its chunks have more bytes than the limit, and with status 400 otherwise.
  pub read_json_request_body-IsAnswer :
      (fuel : ℕ) (request : Source) (max_bytes : ℕ) (reads : ℕ → Read) (chunks : List (List ℕ))
      (complete : Bool)
      → request.body ≡ some reads
      → Gives reads 0 chunks complete
      → length chunks < fuel
      → IsAnswer
          (IsOver request max_bytes chunks)
          complete
          (concat chunks)
          (read_json_request_body decode parse fuel request max_bytes)
  unfolding read_json_request_body
  read_json_request_body-IsAnswer fuel request max_bytes reads chunks complete body given enough =
      rw (read_bounded_body-Gives fuel request max_bytes reads chunks complete body given enough)
        (elim (Bool-cases (declares_more request.content_length max_bytes)) [
          | inl more ↦ rw more (
              refused-IsAnswer _ complete (concat chunks) _
                (inl (declares_more_sound request.content_length max_bytes more)) refl)
          | inr less ↦ rw less (elim (Bool-cases (ltb max_bytes (length (concat chunks)))) [
            | inl over ↦
                rw over (refused-IsAnswer _ complete (concat chunks) _ (inr (ground arith)) refl)
            | inr fits ↦ rw fits (
                verdict-IsAnswer _ complete (concat chunks)
                  (not-IsOver request max_bytes chunks less fits))
          ])
        ])

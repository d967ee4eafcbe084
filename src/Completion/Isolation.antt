-- ===== src/Completion/Isolation.antt =====
-- The boundary around a provider: what it returns is validated, and what it raises is classified.
use eiraos_chat_backend.Prelude.{
  ℕ, ◌≡◌, ◌⊎◌, inl, inr, refl, String, Option, none, some, List, [], ◌∷◌, if◌then◌else◌,
}
use eiraos_chat_backend.Prelude.Text.{is_empty}
use eiraos_chat_backend.Prelude.Result.{Result, ok, err, ◌>>=◌, Result-cases}
use eiraos_chat_backend.Chat.Failure.{failure_policy}
use eiraos_chat_backend.Completion.Raised.{
  timeout, upstream, invalid_response, internal, failure_code, response_status, Raised,
  cancelled_error, generator_exit, isolated, timeout_error, eiraos_error, other_error,
}

-- A value of a provider, which may be no text.
pub data Value : Type 0 where
  text : String → Value
  not_text : Value

unfoldable pub require_text : Value → Result Raised String
require_text not_text = err (isolated invalid_response)
require_text (text s) = if is_empty s then err (isolated invalid_response) else ok s

-- the handlers of `execute`
unfoldable pub isolate : Raised → Raised
isolate cancelled_error = cancelled_error
isolate generator_exit = generator_exit
isolate (isolated kind) = isolated kind
isolate timeout_error = isolated timeout
isolate eiraos_error = isolated upstream
isolate e = isolated internal

abbrev pub isolating {ℓ} : {A : Type ℓ} → (Raised → Raised) → Result Raised A → Result Raised A
isolating handlers (ok a) = ok a
isolating handlers (err e) = err (handlers e)

-- of the outcome of the operation under its timeout
unfoldable pub execute {ℓ κ} :
    {A : Type ℓ} {B : Type κ} → Result Raised A → (A → Result Raised B) → Result Raised B
unfolding isolate
execute call validate = isolating isolate (call >>= validate)

-- the handlers of `stream`, which have no case for a timeout
unfoldable pub isolate_stream : Raised → Raised
unfolding isolate
isolate_stream timeout_error = isolated internal
isolate_stream e = isolate e

-- An event of a provider's stream: a text, the reported usage, neither, or an exception.
pub data ProviderEvent : Type 0 where
  yields : Value → ProviderEvent
  reports : ℕ → ProviderEvent
  says_nothing : ProviderEvent
  raises : Raised → ProviderEvent

-- What is left of a stream, and the usage that was reported on it.
pub record Source : Type 0 where
  pub events : List ProviderEvent
  pub usage : Option ℕ

abbrev source : List ProviderEvent → Option ℕ → Source
source events usage = record { events = events; usage = usage }

-- `provider_text_stream` inside `stream`: the next text that is not empty, or the end. What a
-- generator that raised has left is not seen.
unfoldable pub next_chunk : List ProviderEvent → Option ℕ → Result Raised (Option String) × Source
unfolding isolate_stream
next_chunk [] usage = (ok none, source [] usage)
next_chunk (yields not_text ∷ events) usage = (err (isolated invalid_response), source [] usage)
next_chunk (yields (text s) ∷ events) usage =
    let more = next_chunk events usage in
    if is_empty s then more else (ok (some s), source events usage)
next_chunk (says_nothing ∷ events) usage = next_chunk events usage
next_chunk (raises e ∷ events) usage = (err (isolate_stream e), source [] usage)
next_chunk (reports tokens ∷ events) none = next_chunk events (some tokens)
next_chunk (reports tokens ∷ events) (some before) =
    (err (isolate_stream other_error), source [] (some before))

module _ {A B : Type 0} (call : Result Raised A) (validate : A → Result Raised B) where
  -- the operation or the validation of its value raised it
  abbrev pub IsRaised : Raised → Type 0
  IsRaised e = (call ≡ err e) ⊎ ((a : A) × (call ≡ ok a) × (validate a ≡ err e))

  -- What may leave the boundary: a validated value; a cancellation or an exit that was there; or an
  -- isolated failure with the status of the policy, a timeout only where there was one.
  abbrev pub Isolates : Result Raised B → Type 0
  Isolates (ok b) = (a : A) × (call ≡ ok a) × (validate a ≡ ok b)
  Isolates (err cancelled_error) = IsRaised cancelled_error
  Isolates (err generator_exit) = IsRaised generator_exit
  Isolates (err (isolated kind)) =
      ((failure_policy (failure_code kind)).response_status ≡ response_status kind)
      × (kind ≡ timeout → IsRaised timeout_error ⊎ IsRaised (isolated timeout))
  Isolates (err e) = ⊥

  isolate-Isolates : (e : Raised) → IsRaised e → Isolates (err (isolate e))
  unfolding isolate failure_code response_status failure_policy
  isolate-Isolates cancelled_error h = h
  isolate-Isolates generator_exit h = h
  isolate-Isolates (isolated timeout) h = (refl, λ same. inr h)
  isolate-Isolates (isolated upstream) h = (refl, λ same. cc)
  isolate-Isolates (isolated invalid_response) h = (refl, λ same. cc)
  isolate-Isolates (isolated internal) h = (refl, λ same. cc)
  isolate-Isolates timeout_error h = (refl, λ same. inl h)
  isolate-Isolates e h = (refl, λ same. cc)

-- Whatever an operation and the validation of its value do, what leaves the boundary is the validated
-- value, a cancellation or generator exit that one of them raised, or an isolated failure and no
-- other exception. Its response status is the one of the failure policy for its failure code, and it
-- is a timeout only if one of them raised a timeout.
pub execute-Isolates :
    {A B : Type 0} (call : Result Raised A) (validate : A → Result Raised B)
    → Isolates call validate (execute call validate)
unfolding execute
execute-Isolates call validate = elim (Result-cases call) [
  | inl (e, raised) ↦ rw raised (isolate-Isolates (err e) validate e (inl refl))
  | inr (a, value) ↦ elim (Result-cases (validate a)) [
    | inl (e, refused) ↦
        rw (value, refused) (isolate-Isolates (ok a) validate e (inr (a, refl, refused)))
    | inr (b, valid) ↦ rw (value, valid) (a, refl, valid)
  ]
]

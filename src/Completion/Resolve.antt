-- ===== src/Completion/Resolve.antt =====
-- How a stream ends.
use eiraos_chat_backend.Prelude.{◌≡◌, ◌⊎◌, String, false, List, ◌∷◌}
use eiraos_chat_backend.Prelude.Result.{Result, ok, err}
use eiraos_chat_backend.Chat.Database.{Database}
use eiraos_chat_backend.Completion.Raised.{Raised, cancelled_error, generator_exit}
use eiraos_chat_backend.Completion.Stream.{
  Frame, done_frame, error_frame, Streaming, Environment, Generator,
}
use eiraos_chat_backend.Completion.Terminal.{IsTried, IsStored, IsUnresolved}
use eiraos_chat_backend.Completion.Before.{has_done, written, Before}

module _ (env : Environment) where
  -- the end was announced, with what is stored as the answer
  abbrev pub IsComplete : Streaming → Type 0
  IsComplete s =
      (content : String) × (earlier : List Frame) × (s.frames
        ≡ done_frame content s.verdict ∷ earlier)
      × (has_done earlier ≡ false)
      × (env.verify ≡ false → content ≡ written earlier)
      × IsStored env content s

  -- How the generator ends: having announced the end; having announced an error; cancelled; or
  -- closed by its client, before the terminal state was claimed or after. Nothing else leaves it.
  abbrev pub Resolves : Result Raised (Unit {0}) × Streaming → Type 0
  Resolves (ok done, s) =
      IsComplete s ⊎ ((earlier : List Frame) × (s.frames ≡ error_frame ∷ earlier) × IsTried env s)
  Resolves (err cancelled_error, s) = IsTried env s
  Resolves (err generator_exit, s) = IsUnresolved env s ⊎ IsComplete s
  Resolves (err e, s) = ⊥

  -- what the body may raise
  abbrev Escapes : Raised → Streaming → Type 0
  Escapes generator_exit s = IsUnresolved env s ⊎ IsComplete s
  Escapes e s = IsUnresolved env s

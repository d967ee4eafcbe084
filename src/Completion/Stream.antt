-- ===== src/Completion/Stream.antt =====
-- The state of a stream that is sent to a client, and the computations on it: `event_generator` as a
-- program that yields frames, may raise, and writes to the database through `finalize`. Newest first
-- in every list.
use eiraos_chat_backend.Prelude.{ℕ, String, Option, Bool, true, false, List, ◌∷◌}
use eiraos_chat_backend.Prelude.Result.{Result, ok, err}
use eiraos_chat_backend.Chat.Failure.{FailureCode}
use eiraos_chat_backend.Chat.Database.{Database}
use eiraos_chat_backend.Chat.Session.{Faults, Commit}
use eiraos_chat_backend.Chat.Accounting.{ExecutionCost}
use eiraos_chat_backend.Chat.Finalize.{Ended}
use eiraos_chat_backend.Completion.Raised.{Raised, generator_exit}
use eiraos_chat_backend.Completion.Program.{Program}
use eiraos_chat_backend.Completion.Verify.{Json}
use eiraos_chat_backend.Completion.Pump.{Settings, Pump, Wait}

pub data StreamTerminal : Type 0 where
  completed failed cancelled : StreamTerminal

-- What the response says of a verification, where there was one.
pub record Verdict : Type 0 where
  pub verified : Bool
  pub status : Option String
  pub reason : Option String

-- One server-sent event; the identifiers in the first are left out.
pub data Frame : Type 0 where
  start_frame : Frame
  token : String → Frame
  keep_alive : Frame
  verification_frame : Verdict → Frame
  done_frame : String → Verdict → Frame
  error_frame : Frame

pub record Streaming : Type 0 where
  pub frames : List Frame
  pub accumulated : String
  pub verdict : Verdict
  pub stream_failure_code : FailureCode
  pub primary_content : Option String
  pub accounting : List ExecutionCost
  pub terminal : Option StreamTerminal
  pub requests : List Ended
  pub pump : Pump
  pub db : Database

-- While the verification is awaited: what is found when a keep-alive is due.
pub record Glance : Type 0 where
  pub is_disconnected : Bool
  pub is_lease_lost : Bool

-- What the generator is given: the prices, the verifier (found, bound to its provider and asked), the budget backend, the database's faults
-- and clock, and what the event loop and the client do. `takes` tells whether the client asks for
-- more after the newest frame.
pub record Environment : Type 0 where
  pub execution_id : String
  pub lease_token : Option String
  pub settings : Settings
  pub verify : Bool
  pub is_tenant_budget : Bool
  pub account_primary : String → Result Raised ExecutionCost
  pub account_reported : ℕ → Result Raised ExecutionCost
  pub account_verification : String → Result Raised ExecutionCost
  pub settle : ℕ → Result Raised (Unit {0})
  pub verifier_found : Bool
  pub verifier : String → Result Raised String
  pub loads : String → Json
  pub encode : String → Verdict → String
  pub takes : List Frame → Bool
  pub waits : List Wait
  pub glances : List Glance
  pub is_lease_lost : Bool
  pub marking_faults : Faults
  pub marking_commit : Commit
  pub faults : Faults
  pub commit : Commit
  pub now : ℕ

abbrev pub Generator : Type 0 → Type 0
Generator A = Program Streaming A

-- `yield frame`: where the client asks for no more, the generator is closed
abbrev pub yielded : Bool → Generator (Unit {0})
yielded true s = (ok tt, s)
yielded false s = (err generator_exit, s)

unfoldable pub yield_frame : Environment → Frame → Generator (Unit {0})
yield_frame env frame s =
    let sent = frame ∷ s.frames in yielded (env.takes sent) (record s { frames = sent })

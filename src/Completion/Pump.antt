-- ===== src/Completion/Pump.antt =====
-- `StreamPump`: chunks, keep-alives, disconnection and lease loss in one sequence of events. Times are
-- whole units of the event loop's clock. The tasks for the disconnection and the lease wait all the
-- time; the task for a chunk exists exactly while a deadline is set.
use eiraos_chat_backend.Prelude.{
  ℕ, ◌+◌, ◌-◌, ◌≤◌, min, ◌≡◌, String, Option, none, some, Bool, true, false, List, [], ◌∷◌, ◌&&◌,
  leb, if◌then◌else◌,
}
use eiraos_chat_backend.Prelude.Result.{Result, ok, err}
use eiraos_chat_backend.Completion.Raised.{Raised}
use eiraos_chat_backend.Completion.Isolation.{ProviderEvent, Source, next_chunk}

pub data StreamEvent : Type 0 where
  chunk : String → StreamEvent
  heartbeat end disconnected lease_lost timed_out : StreamEvent

pub record Settings : Type 0 where
  pub has_lease : Bool
  pub heartbeat_seconds : ℕ
  pub chunk_timeout_seconds : ℕ

pub record Pump : Type 0 where
  pub chunk_deadline : Option ℕ
  pub closed : Bool
  pub source : Source

abbrev pub new_pump : List ProviderEvent → Pump
new_pump events = record {
  chunk_deadline = none;
  closed = false;
  source = record { events = events; usage = none };
}

-- One wait: the clock before it, the tasks that are done after it, and the clock then.
pub record Wait : Type 0 where
  pub started : ℕ
  pub disconnect_done : Bool
  pub lease_done : Bool
  pub chunk_done : Bool
  pub woken : ℕ

-- `aclose`: after it every event is the end
unfoldable pub aclose : Pump → Pump
aclose p = record p { closed = true }

abbrev pub received : Result Raised (Option String) → Result Raised StreamEvent
received (err e) = err e
received (ok none) = ok end
received (ok (some s)) = ok (chunk s)

module _ (settings : Settings) where
  -- the deadline of the chunk that is waited for, set when its task is made
  abbrev pub deadline_of : Option ℕ → ℕ → ℕ
  deadline_of none now = now + settings.chunk_timeout_seconds
  deadline_of (some deadline) now = deadline

  abbrev take_chunk :
      Pump → Result Raised (Option String) × Source → Result Raised StreamEvent × Pump
  take_chunk p (answer, source) =
      (received answer, record p { chunk_deadline = none; source = source })

  unfoldable pub next_event : Pump → Wait → Result Raised StreamEvent × Pump
  unfolding next_chunk
  next_event p w =
      let deadline = deadline_of p.chunk_deadline w.started in
      let waiting : Pump = record p { chunk_deadline = some deadline } in
      if p.closed
      then (ok end, p)
      else if w.disconnect_done
      then (ok disconnected, waiting)
      else if settings.has_lease && w.lease_done
      then (ok lease_lost, waiting)
      else if w.chunk_done
      then take_chunk p (next_chunk p.source.events p.source.usage)
      else if leb deadline w.woken
      then (ok timed_out, waiting)
      else (ok heartbeat, waiting)

  -- The event loop's part, from the clock `now`: it does not go back, and a wait that no task ended
  -- lasted as long as its timer.
  abbrev pub IsTimed : ℕ → Pump → Wait → Type 0
  IsTimed now p w =
      (now ≤ w.started)
      × (w.started
            + min settings.heartbeat_seconds (deadline_of p.chunk_deadline w.started - w.started)
          ≤ w.woken)

  -- every event of the waits is a keep-alive
  unfoldable pub IsSilent : ℕ → Pump → List Wait → Type 0
  IsSilent now p [] = Unit
  IsSilent now p (w ∷ ws) =
      IsTimed now p w × ((next_event p w).0 ≡ ok heartbeat) × IsSilent w.woken (next_event p w).1 ws

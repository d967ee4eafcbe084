-- ===== src/Completion/Before.antt =====
-- What the generator keeps up to its terminal transition.
use Prim.Native.String.{◌++◌ as join}
use eiraos_chat_backend.Prelude.{
  ℕ, ◌≡◌, ◌≢◌, refl, ap, sym, ◌∙◌, String, Option, none, some, Bool, true, false, List, [], ◌∷◌,
  Bool-cases, inl, inr, not, ◌&&◌,
}
use eiraos_chat_backend.Prelude.Result.{Result, ok, err, Result-cases}
use eiraos_chat_backend.Chat.Recover.{mark_streaming}
use eiraos_chat_backend.Chat.Accounting.{ExecutionCost}
use eiraos_chat_backend.Completion.Raised.{Raised, cancelled_error, generator_exit, other_error}
use eiraos_chat_backend.Completion.Verify.{VerificationResult}
use eiraos_chat_backend.Completion.Pump.{
  StreamEvent, chunk, heartbeat, end, disconnected, lease_lost, timed_out, Wait, next_event,
}
use eiraos_chat_backend.Completion.Program.{
  ◌>>=◌, ◌>>◌, give, raise_when, lift, change, Ends, Ends-after, Keeps, Keeps-bind, Keeps-then,
  Keeps-lift, Keeps-raise_when,
}
use eiraos_chat_backend.Completion.Stream.{
  Frame, start_frame, token, keep_alive, verification_frame, done_frame, error_frame, Streaming,
  Glance, Environment, Generator, yielded, yield_frame,
}
use eiraos_chat_backend.Completion.Generator.{
  close_pump, handle, pump_event, read_stream, await_verification, run_verification,
  account_verification, take_result, verified_if, verdict_of, mark, before_end,
}
use eiraos_chat_backend.Completion.Finalizer.{persisted, account, settled, settle_primary_usage}

abbrev pub has_done : List Frame → Bool
has_done [] = false
has_done (done_frame content verdict ∷ frames) = true
has_done (start_frame ∷ frames) = has_done frames
has_done (token content ∷ frames) = has_done frames
has_done (keep_alive ∷ frames) = has_done frames
has_done (verification_frame verdict ∷ frames) = has_done frames
has_done (error_frame ∷ frames) = has_done frames

-- the text of the tokens, in the order in which they were sent
abbrev pub written : List Frame → String
written [] = ""
written (token content ∷ frames) = join (written frames) content
written (start_frame ∷ frames) = written frames
written (keep_alive ∷ frames) = written frames
written (verification_frame verdict ∷ frames) = written frames
written (done_frame content verdict ∷ frames) = written frames
written (error_frame ∷ frames) = written frames

true-ne-false : true ≢ false
true-ne-false h = cc

-- nothing is finalized and no end is announced
abbrev pub IsOpen : Streaming → Type 0
IsOpen s = (s.terminal ≡ none) × (s.requests ≡ []) × (has_done s.frames ≡ false)

pub Ends-yielded :
    (Q : Unit {0} → Streaming → Type 0) (E : Raised → Streaming → Type 0) (b : Bool) (s : Streaming)
    → Q tt s
    → E generator_exit s
    → Ends Q E (yielded b s)
Ends-yielded Q E true s q e = q
Ends-yielded Q E false s q e = e

module _ (env : Environment) where
  abbrev pub Before : Streaming → Type 0
  Before s = IsOpen s × (env.verify ≡ false → written s.frames ≡ s.accumulated)

  -- a computation that keeps it
  abbrev pub KeepsBefore : {A : Type 0} → Generator A → Type 0
  KeepsBefore m = Keeps Before (λ e. IsOpen) m

  IsOpen-of : (e : Raised) (s : Streaming) → Before s → IsOpen s
  IsOpen-of e s h = h.0

  -- a frame that announces no end and no text
  Keeps-yield_frame :
      (frame : Frame)
      → ((frames : List Frame) → has_done (frame ∷ frames) ≡ has_done frames)
      → ((frames : List Frame) → written (frame ∷ frames) ≡ written frames)
      → KeepsBefore (yield_frame env frame)
  unfolding yield_frame
  Keeps-yield_frame frame same text s ((t, r, d), w) =
      Ends-yielded (λ a. Before) (λ e. IsOpen) (env.takes (frame ∷ s.frames)) _
        ((t, r, same s.frames ∙ d), λ off. text s.frames ∙ w off) (t, r, same s.frames ∙ d)

  -- a chunk is appended and sent
  Keeps-chunk : (content : String) → KeepsBefore (handle env (chunk content))
  unfolding yield_frame
  Keeps-chunk content s ((t, r, d), w) =
      Ends-after {B = Bool} (λ a. Before) (λ a. Before) (λ e. IsOpen)
        (yield_frame env (token content) (record s { accumulated = join s.accumulated content }))
        (λ _. give false)
        (Ends-yielded (λ a. Before) (λ e. IsOpen) (env.takes (token content ∷ s.frames)) _
          ((t, r, d), λ off. ap (λ text. join text content) (w off)) (t, r, d))
        (λ a s' h. h)

  Keeps-handle : (event : StreamEvent) → KeepsBefore (handle env event)
  Keeps-handle (chunk content) s h = Keeps-chunk content s h
  Keeps-handle heartbeat s h =
      Keeps-then Before (λ e. IsOpen) (yield_frame env keep_alive) (give false)
        (Keeps-yield_frame keep_alive (λ frames. refl) (λ frames. refl)) (λ s h. h) s h
  Keeps-handle end s h = h
  Keeps-handle disconnected s h = h.0
  Keeps-handle lease_lost s h = h.0
  Keeps-handle timed_out s h = h.0

  Keeps-read_stream : (ws : List Wait) → KeepsBefore (read_stream env ws)
  unfolding read_stream
  Keeps-read_stream [] s h = h.0
  Keeps-read_stream (w ∷ ws) s h =
      Keeps-bind Before (λ e. IsOpen) (pump_event env w) _ pumped
        (λ event.
          Keeps-bind Before (λ e. IsOpen) (handle env event) _ (Keeps-handle event)
            (go (Keeps-read_stream ws)))
        s h
    where
      pumped : KeepsBefore (pump_event env w)
      pumped s h = elim (Result-cases (next_event env.settings s.pump w).0) [
        | inl (e, raised) ↦ rw raised h.0
        | inr (event, got) ↦ rw got h
      ]

      go :
          KeepsBefore (read_stream env ws)
          → (is_over : Bool)
          → KeepsBefore (elim is_over [ true ↦ give tt | false ↦ read_stream env ws ])
      go rest true s' h' = h'
      go rest false s' h' = rest s' h'

  Keeps-await_verification : (gs : List Glance) → KeepsBefore (await_verification env gs)
  unfolding await_verification
  Keeps-await_verification [] s h = h
  Keeps-await_verification (g ∷ gs) s h =
      Keeps-then Before (λ e. IsOpen) (raise_when g.is_disconnected cancelled_error) _
        (Keeps-raise_when Before (λ e. IsOpen) IsOpen-of _ _)
        (Keeps-then Before (λ e. IsOpen)
          (raise_when (env.settings.has_lease && g.is_lease_lost) other_error) _
          (Keeps-raise_when Before (λ e. IsOpen) IsOpen-of _ _)
          (Keeps-then Before (λ e. IsOpen) (yield_frame env keep_alive) (await_verification env gs)
            (Keeps-yield_frame keep_alive (λ frames. refl) (λ frames. refl))
            (Keeps-await_verification gs)))
        s h

  Keeps-account : (r : Result Raised ExecutionCost) → KeepsBefore (lift r >>= account)
  Keeps-account (ok entry) s h = h
  Keeps-account (err e) s h = h.0

  Keeps-settled : (tokens : ℕ) → KeepsBefore (settled env tokens)
  Keeps-settled tokens s h =
      Keeps-bind Before (λ e. IsOpen) (lift (env.account_reported tokens))
        (λ entry. account entry >> lift (env.settle tokens))
        (Keeps-lift Before (λ e. IsOpen) IsOpen-of (env.account_reported tokens))
        (λ entry.
          Keeps-then Before (λ e. IsOpen) (account entry) (lift (env.settle tokens)) (λ s' h'. h')
            (Keeps-lift Before (λ e. IsOpen) IsOpen-of (env.settle tokens)))
        s h

  Keeps-settle_primary_usage : (usage : Option ℕ) → KeepsBefore (settle_primary_usage env usage)
  unfolding settle_primary_usage
  Keeps-settle_primary_usage none s h = h
  Keeps-settle_primary_usage (some tokens) s h = elim (Bool-cases env.is_tenant_budget) [
    | inr off ↦ rw off h
    | inl on ↦ rw on (Keeps-settled tokens s h)
  ]

  Keeps-account_verification :
      (answer : String) (output : Option String)
      → KeepsBefore (account_verification env answer output)
  Keeps-account_verification answer none s h = h
  Keeps-account_verification answer (some output) s h = elim (Bool-cases env.verifier_found) [
    | inr off ↦ rw off h
    | inl on ↦ rw on (Keeps-account (env.account_verification output) s h)
  ]

  -- where an answer is verified, the text is replaced
  Keeps-take_result :
      (result : VerificationResult) → env.verify ≡ true → KeepsBefore (take_result env result)
  Keeps-take_result result on s h =
      Keeps-then Before (λ e. IsOpen)
        (λ (t : Streaming). account_verification env t.accumulated result.provider_output t) _
        (λ s' h'. Keeps-account_verification s'.accumulated result.provider_output s' h')
        (Keeps-then Before (λ e. IsOpen)
          (change (λ (t : Streaming). record t {
            accumulated = result.answer;
            verdict = verdict_of result;
          }))
          (yield_frame env (verification_frame (verdict_of result)))
          (λ s' h'. (h'.0, λ off. absurd (true-ne-false (sym on ∙ off))))
          (Keeps-yield_frame (verification_frame (verdict_of result)) (λ frames. refl)
            (λ frames. refl)))
        s h

  Keeps-verified_if : (b : Bool) → env.verify ≡ b → KeepsBefore (verified_if env b)
  Keeps-verified_if false off s h = h
  Keeps-verified_if true on s h =
      Keeps-then Before (λ e. IsOpen) (await_verification env env.glances) _
        (Keeps-await_verification env.glances)
        (Keeps-bind Before (λ e. IsOpen)
          (λ (t : Streaming). lift (run_verification env t.accumulated) t) (take_result env)
          (λ s' h'.
            Keeps-lift Before (λ e. IsOpen) IsOpen-of (run_verification env s'.accumulated) s' h')
          (λ result. Keeps-take_result result on))
        s h

  Keeps-mark : KeepsBefore (mark env)
  unfolding mark
  Keeps-mark s h =
      let (answer, db) =
        mark_streaming env.marking_faults env.marking_commit env.execution_id s.db in
      Keeps-lift Before (λ e. IsOpen) IsOpen-of (persisted answer) (record s { db = db }) h

  -- Up to the terminal transition nothing is finalized and no end is announced, however it stops.
  pub Keeps-before_end : KeepsBefore (before_end env)
  unfolding before_end
  Keeps-before_end s h =
      Keeps-bind Before (λ e. IsOpen) (mark env) _ Keeps-mark
        (λ marked.
          Keeps-then Before (λ e. IsOpen) (raise_when (not marked) other_error) _
            (Keeps-raise_when Before (λ e. IsOpen) IsOpen-of (not marked) other_error)
            (Keeps-then Before (λ e. IsOpen) (yield_frame env start_frame) _
              (Keeps-yield_frame start_frame (λ frames. refl) (λ frames. refl))
              (Keeps-then Before (λ e. IsOpen) (read_stream env env.waits) _
                (Keeps-read_stream env.waits)
                (Keeps-then Before (λ e. IsOpen) (close_pump env) _ (λ s' h'. h')
                  (Keeps-then Before (λ e. IsOpen)
                    (λ (t : Streaming). settle_primary_usage env t.pump.source.usage t) _
                    (λ s' h'. Keeps-settle_primary_usage s'.pump.source.usage s' h')
                    (Keeps-then Before (λ e. IsOpen) (verified_if env env.verify) _
                      (Keeps-verified_if env.verify refl)
                      (Keeps-raise_when Before (λ e. IsOpen) IsOpen-of
                        (env.settings.has_lease && env.is_lease_lost) other_error)))))))
        s h

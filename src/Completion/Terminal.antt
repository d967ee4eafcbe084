-- ===== src/Completion/Terminal.antt =====
-- The terminal transition of a stream: what it is claimed for, and what is stored.
use eiraos_chat_backend.Prelude.{
  ◌≡◌, ◌⊎◌, ◌≢◌, refl, sym, ◌∙◌, String, Option, none, some, Bool, true, false, List, [], ◌∷◌,
  Bool-cases, inl, inr, length, any,
}
use eiraos_chat_backend.Prelude.Result.{Result, ok, err, Result-cases}
use eiraos_chat_backend.Chat.Database.{Database}
use eiraos_chat_backend.Chat.Accounting.{ExecutionCost}
use eiraos_chat_backend.Chat.Finalize.{Ended, finalize}
use eiraos_chat_backend.Chat.Once.{IsFinal, finalize-IsFinal}
use eiraos_chat_backend.Completion.Raised.{Raised}
use eiraos_chat_backend.Completion.Program.{after, Ends, Ends-after, Ends-weaken}
use eiraos_chat_backend.Completion.Stream.{
  StreamTerminal, completed, failed, cancelled, Frame, Streaming, Environment,
}
use eiraos_chat_backend.Completion.Finalizer.{
  is_primary, or_else, persisted, account_primary, ended_with, must_be_new, persist, apply_terminal,
  finalize_new, finalize_stream,
}
use eiraos_chat_backend.Completion.Before.{has_done, IsOpen}

-- some answer has no price
abbrev pub IsUnpriced : Environment → Type 0
IsUnpriced env = (content : String) × (e : Raised) × (env.account_primary content ≡ err e)

-- the store was asked once, or, for want of a price, not at all
abbrev pub IsAsked : Environment → Streaming → Type 0
IsAsked env s = (length s.requests ≡ 1) ⊎ ((s.requests ≡ []) × IsUnpriced env)

-- the terminal state is claimed and applied, and no end was announced
abbrev pub IsTried : Environment → Streaming → Type 0
IsTried env s =
    ((t : StreamTerminal) × (s.terminal ≡ some t)) × IsAsked env s × (has_done s.frames ≡ false)

pub none-ne-some : (t : StreamTerminal) → none ≢ some t
none-ne-some t h = cc

-- before the terminal state is claimed, or after
abbrev pub IsUnresolved : Environment → Streaming → Type 0
IsUnresolved env s = IsOpen s ⊎ IsTried env s

module _ (env : Environment) where
  -- The execution is completed in the tables with the content.
  pub record IsStored (content : String) (s : Streaming) : Type 0 where
    pub request : Ended
    pub once : s.requests ≡ request ∷ []
    pub same_content : request.content ≡ content
    pub same_execution : request.execution_id ≡ env.execution_id
    pub replayable : request.response_reference ≡ env.encode content s.verdict
    pub before : Database
    pub final : IsFinal env.now request before s.db

  -- a frame changes nothing of it
  pub IsStored-sent :
      (content : String) (s : Streaming) (frames : List Frame)
      → IsStored content s
      → IsStored content (record s { frames = frames })
  IsStored-sent content s frames stored = record {
    request = stored.request;
    once = stored.once;
    same_content = stored.same_content;
    same_execution = stored.same_execution;
    replayable = stored.replayable;
    before = stored.before;
    final = stored.final;
  }

  -- the pricing touches nothing but the accounting
  account_primary_lem :
      (content : String) (s : Streaming)
      → Ends
          (λ a t. (entries : List ExecutionCost) × (t ≡ record s { accounting = entries }))
          (λ e t. (t ≡ s) × IsUnpriced env)
          (account_primary env content s)
  account_primary_lem content s = elim (Bool-cases (any is_primary s.accounting)) [
    | inl priced ↦ rw priced (s.accounting, refl)
    | inr open_ ↦ elim (Result-cases (env.account_primary (or_else s.primary_content content))) [
      | inl (e, raised) ↦ rw (open_, raised) (refl, (or_else s.primary_content content, e, raised))
      | inr (entry, price) ↦ rw (open_, price) (entry ∷ s.accounting, refl)
    ]
  ]

  Tried-must_be_new :
      (t : StreamTerminal) (answer : Result Raised Bool) (s : Streaming)
      → IsTried env s
      → Ends (λ a. IsTried env) (λ e. IsTried env) (after (answer, s) (must_be_new env t))
  Tried-must_be_new t (err e) s h = h
  Tried-must_be_new completed (ok true) s h = h
  Tried-must_be_new completed (ok false) s h = h
  Tried-must_be_new failed (ok finalized) s h = h
  Tried-must_be_new cancelled (ok finalized) s h = h

  Tried-persist :
      (t : StreamTerminal) (x : Ended) (s : Streaming)
      → s.terminal ≡ some t
      → s.requests ≡ []
      → has_done s.frames ≡ false
      → Ends (λ a. IsTried env) (λ e. IsTried env) (after (persist env x s) (must_be_new env t))
  unfolding persist
  Tried-persist t x s claimed fresh quiet =
      Tried-must_be_new t (persisted (finalize env.faults env.commit env.now x s.db).0) _
        ((t, claimed), inl (rw fresh refl), quiet)

  -- a terminal state that is applied: `Q` is what a success gives
  Applied :
      (Q : Streaming → Type 0) (t : StreamTerminal) (content : String) (s : Streaming)
      → s.terminal ≡ some t
      → s.requests ≡ []
      → has_done s.frames ≡ false
      → ((entries : List ExecutionCost)
          → Ends
              (λ a. Q)
              (λ e. IsTried env)
              (after
                (persist env
                  (ended_with env t content (record s { accounting = entries }))
                  (record s { accounting = entries }))
                (must_be_new env t)))
      → Ends (λ a. Q) (λ e. IsTried env) (apply_terminal env t content s)
  unfolding apply_terminal
  Applied Q t content s claimed fresh quiet store =
      Ends-after (λ a u. (entries : List ExecutionCost) × (u ≡ record s { accounting = entries }))
        (λ a. Q) (λ e. IsTried env) (account_primary env content s) _
        (Ends-weaken _ _ (λ e u. (u ≡ s) × IsUnpriced env) (λ e. IsTried env)
          (account_primary env content s) (account_primary_lem content s) (λ a u h. h)
          (λ e u (same, unpriced). rw same ((t, claimed), inr (fresh, unpriced), quiet)))
        (λ a u (entries, same). rw same (store entries))

  -- whatever the terminal state is
  pub Tried-finalize_new :
      (t : StreamTerminal) (content : String) (s : Streaming)
      → IsOpen s
      → Ends (λ a. IsTried env) (λ e. IsTried env) (finalize_new env none t content s)
  Tried-finalize_new t content s (free, fresh, quiet) =
      Ends-after (λ a. IsTried env) (λ a. IsTried env) (λ e. IsTried env)
        (apply_terminal env t content (record s { terminal = some t })) _
        (Applied (IsTried env) t content (record s { terminal = some t }) refl fresh quiet
          (λ entries.
            Tried-persist t
              (ended_with env t content (record s { terminal = some t; accounting = entries }))
              (record s { terminal = some t; accounting = entries }) refl fresh quiet))
        (λ a u h. h)

  -- the completion
  abbrev pub IsDone : String → Streaming → Streaming → Type 0
  IsDone content s t = IsStored content t × (t.frames ≡ s.frames) × (t.accumulated ≡ s.accumulated)

  Done-persist :
      (content : String) (s : Streaming)
      → s.terminal ≡ some completed
      → s.requests ≡ []
      → has_done s.frames ≡ false
      → Ends
          (λ a. IsDone content s)
          (λ e. IsTried env)
          (after (persist env (ended_with env completed content s) s) (must_be_new env completed))
  unfolding persist
  Done-persist content s claimed fresh quiet =
      let x : Ended = ended_with env completed content s in
      elim (Result-cases (finalize env.faults env.commit env.now x s.db).0) [
        | inl (e, raised) ↦ rw raised ((completed, claimed), inl (rw fresh refl), quiet)
        | inr (false, again) ↦ rw again ((completed, claimed), inl (rw fresh refl), quiet)
        | inr (true, stored) ↦ rw stored (
          record {
            request = x;
            once = rw fresh;
            same_content = refl;
            same_execution = refl;
            replayable = refl;
            before = s.db;
            final =
                finalize-IsFinal env.faults env.now x s.db env.commit
                  (λ i. (stored i, (finalize env.faults env.commit env.now x s.db).1));
          },
          refl,
          refl,
        )
      ]

  Done-finalize_new :
      (content : String) (s : Streaming)
      → IsOpen s
      → Ends (λ a. IsDone content s) (λ e. IsTried env) (finalize_new env none completed content s)
  Done-finalize_new content s (free, fresh, quiet) =
      Ends-after (λ a. IsDone content s) (λ a. IsDone content s) (λ e. IsTried env)
        (apply_terminal env completed content (record s { terminal = some completed })) _
        (Applied (IsDone content s) completed content (record s { terminal = some completed }) refl
          fresh quiet
          (λ entries.
            Done-persist content (record s { terminal = some completed; accounting = entries }) refl
              fresh quiet))
        (λ a u h. h)

  Tried-claimed :
      (o : Option StreamTerminal) (t : StreamTerminal) (content : String) (s : Streaming)
      → s.terminal ≡ o
      → IsUnresolved env s
      → Ends (λ a. IsTried env) (λ e. IsTried env) (finalize_new env o t content s)
  Tried-claimed none t content s now (inl h) = Tried-finalize_new t content s h
  Tried-claimed none t content s now (inr ((before, claimed), few, quiet)) =
      absurd (none-ne-some before (sym now ∙ claimed))
  Tried-claimed (some before) t content s now (inl (free, fresh, quiet)) =
      absurd (none-ne-some before (sym free ∙ now))
  Tried-claimed (some before) t content s now (inr h) = h

  pub Tried-finalize_stream :
      (t : StreamTerminal) (content : String) (s : Streaming)
      → IsUnresolved env s
      → Ends (λ a. IsTried env) (λ e. IsTried env) (finalize_stream env t content s)
  unfolding finalize_stream
  Tried-finalize_stream t content s h = Tried-claimed s.terminal t content s refl h

  pub Done-claimed :
      (o : Option StreamTerminal) (content : String) (s : Streaming)
      → s.terminal ≡ o
      → IsOpen s
      → Ends (λ a. IsDone content s) (λ e. IsTried env) (finalize_new env o completed content s)
  Done-claimed none content s now h = Done-finalize_new content s h
  Done-claimed (some before) content s now (free, fresh, quiet) =
      absurd (none-ne-some before (sym free ∙ now))

-- ===== src/Completion/Release.antt =====
-- What a failed preflight gives back, step by step.
use eiraos_chat_backend.Prelude.{
  ℕ, ◌≡◌, ◌⊎◌, refl, sym, ap, ◌∙◌, String, Option, none, some, Bool, true, false, List, [], ◌∷◌,
  any, is_some, if◌then◌else◌, Bool-cases, inl, inr,
}
use eiraos_chat_backend.Chat.Failure.{FailureCode}
use eiraos_chat_backend.Completion.Raised.{http_exception}
use eiraos_chat_backend.Completion.Program.{give, after, ◌>>◌, raise, Ends, Ends-after, Ends-weaken}
use eiraos_chat_backend.Completion.Preflight.{
  Act, release_tenant, finalize_failed, record_result, release_lease, Held, Environment,
}
use eiraos_chat_backend.Completion.Compensated.{
  is_budget_release, is_lease_release, is_result, none-ne-some, IsUnrecorded, IsCompensated,
  Matches, IsAnswered,
}
use eiraos_chat_backend.Completion.FailPreflight.{
  attempt, close_decision, release_preflight_lease, release_budget, close_rest,
}

module _ (env : Environment) where
  module _ (s : Held) where
    -- the same variables, with these steps taken
    abbrev Took : (List Act → Type 0) → Held → Type 0
    Took P t = (acts : List Act) × (t ≡ record s { acts = acts }) × P acts

    abbrev HasBudget : List Act → Type 0
    HasBudget acts =
        s.budgeted_execution ≡ some true
        → env.has_redis ≡ true
        → any is_budget_release acts ≡ env.releases_tenant

    abbrev HasResult : List Act → Type 0
    HasResult acts = is_some s.governance_decision_id ≡ true → any is_result acts ≡ true

    abbrev HasLease : ℕ → List Act → Type 0
    HasLease status acts =
        is_some s.reserved_idem.key ≡ true
        → is_some s.reserved_idem.lease_token ≡ true
        → env.releases_lease status ≡ true
        → any is_lease_release acts ≡ true

    Took-release_budget :
        (budget : Option Bool)
        → s.budgeted_execution ≡ budget
        → s.acts ≡ []
        → Ends (λ u. Took HasBudget) (λ e t. ⊥) (release_budget env none budget s)
    Took-release_budget none same quiet =
        ([], (λ i. record s { acts = quiet i }), λ h. absurd (cc (sym h ∙ same)))
    Took-release_budget (some false) same quiet =
        ([], (λ i. record s { acts = quiet i }), λ h. absurd (cc (sym h ∙ same)))
    Took-release_budget (some true) same quiet = configured env.has_redis refl
      where
        released :
            (took : Bool)
            → env.releases_tenant ≡ took
            → Ends {A = Unit {0}} (λ u. Took HasBudget) (λ e t. ⊥) (attempt took release_tenant s)
        released true e =
            (release_tenant ∷ [], (λ i. record s { acts = release_tenant ∷ quiet i }), λ h k. sym e)
        released false e = ([], (λ i. record s { acts = quiet i }), λ h k. sym e)

        configured :
            (redis : Bool)
            → env.has_redis ≡ redis
            → Ends {A = Unit {0}}
                (λ u. Took HasBudget)
                (λ e t. ⊥)
                ((if redis then attempt env.releases_tenant release_tenant else give tt) s)
        configured true e = released env.releases_tenant refl
        configured false e =
            ([], (λ i. record s { acts = quiet i }), λ h k. absurd (cc (rw e at k)))

    Took-close_decision :
        (status : ℕ) (code : FailureCode) (decision : Option String) (acts : List Act)
        → s.governance_decision_id ≡ decision
        → HasBudget acts
        → Ends
            (λ u. Took (λ a. HasBudget a × HasResult a))
            (λ e t. (e ≡ http_exception 503) × IsUnrecorded env × Took HasBudget t)
            (close_decision env status code decision (record s { acts = acts }))
    Took-close_decision status code none acts same budget =
        (acts, refl, (budget, λ h. absurd (cc (rw same at h))))
    Took-close_decision status code (some decision) acts same budget =
        elim (Bool-cases (env.record_preflight status code)) [
          | inl stored ↦ rw stored (record_result status code ∷ acts, refl, (budget, λ h. refl))
          | inr lost ↦ rw lost (refl, (status, code, lost), (acts, refl, budget))
        ]

    Took-release_lease :
        (status : ℕ) (key token : Option String) (acts : List Act)
        → s.reserved_idem.key ≡ key
        → s.reserved_idem.lease_token ≡ token
        → HasBudget acts
        → HasResult acts
        → Ends
            (λ u. Took (λ a. HasBudget a × HasResult a × HasLease status a))
            (λ e t. ⊥)
            (release_preflight_lease env status key token (record s { acts = acts }))
    Took-release_lease status none token acts k t budget result =
        (acts, refl, (budget, result, λ h h' w. absurd (cc (rw k at h))))
    Took-release_lease status (some key) none acts k t budget result =
        (acts, refl, (budget, result, λ h h' w. absurd (cc (rw t at h'))))
    Took-release_lease status (some key) (some token) acts k t budget result =
        released (env.releases_lease status) refl
      where
        released :
            (took : Bool)
            → env.releases_lease status ≡ took
            → Ends {A = Unit {0}}
                (λ u. Took (λ a. HasBudget a × HasResult a × HasLease status a))
                (λ e t. ⊥)
                (attempt took (release_lease status) (record s { acts = acts }))
        released true e = (release_lease status ∷ acts, refl, (budget, result, λ h h' w. refl))
        released false e = (acts, refl, (budget, result, λ h h' w. absurd (cc (rw e at w))))

    compensated :
        (status : ℕ) (acts : List Act)
        → s.persisted_execution ≡ none
        → HasBudget acts
        → HasResult acts ⊎ ((status ≡ 503) × IsUnrecorded env)
        → HasLease status acts ⊎ ((status ≡ 503) × IsUnrecorded env)
        → IsCompensated env status (record s { acts = acts })
    compensated status acts unstored budget result lease = record {
      stored = λ execution h. absurd (none-ne-some execution (sym unstored ∙ h));
      budget = λ h. budget;
      decision = λ h known. elim result [ inl r ↦ inl (r known) | inr late ↦ inr late ];
      lease =
          λ h key token works. elim lease [ inl l ↦ inl (l key token works) | inr late ↦ inr late ];
    }

    abbrev HasAll : ℕ → List Act → Type 0
    HasAll status acts = HasBudget acts × HasResult acts × HasLease status acts

    Answered-close_rest :
        (status : ℕ) (code : FailureCode) (acts : List Act)
        → s.persisted_execution ≡ none
        → HasBudget acts
        → Ends
            (λ u. Took (HasAll status))
            (IsAnswered env)
            (close_rest env status code s none (record s { acts = acts }))
    Answered-close_rest status code acts unstored budget =
        Ends-after {A = Unit {0}} {B = Unit {0}} (λ u. Took (λ a. HasBudget a × HasResult a))
          (λ u. Took (HasAll status)) (IsAnswered env)
          (close_decision env status code s.governance_decision_id (record s { acts = acts }))
          (λ u. release_preflight_lease env status s.reserved_idem.key s.reserved_idem.lease_token)
          (Ends-weaken {A = Unit {0}} (λ u. Took (λ a. HasBudget a × HasResult a)) _ _
            (IsAnswered env)
            (close_decision env status code s.governance_decision_id (record s { acts = acts }))
            (Took-close_decision status code s.governance_decision_id acts refl budget) (λ u t h. h)
            (λ e t (late, known, (taken, same, had)). (
              503,
              late,
              rw same (compensated 503 taken unstored had (inr (refl, known)) (inr (refl, known))),
            )))
          (λ u t (taken, same, had). rw same (
            Ends-weaken {A = Unit {0}} (λ u. Took (HasAll status)) _ (λ e t. ⊥) (IsAnswered env)
              (release_preflight_lease env status s.reserved_idem.key s.reserved_idem.lease_token
                (record s { acts = taken }))
              (Took-release_lease status s.reserved_idem.key s.reserved_idem.lease_token taken refl
                refl had.0 had.1)
              (λ u t h. h) (λ e t h. absurd h)))

    -- where no execution is stored
    Answered-unstored :
        (A : Type 0) (status : ℕ) (code : FailureCode)
        → s.persisted_execution ≡ none
        → s.acts ≡ []
        → Ends {A = A}
            (λ a t. ⊥)
            (IsAnswered env)
            (after
              ((release_budget env none s.budgeted_execution >> close_rest env status code s none)
                s)
              (λ u. raise (http_exception status)))
    Answered-unstored A status code unstored quiet =
        Ends-after {A = Unit {0}} (λ u. Took (HasAll status)) (λ a t. ⊥) (IsAnswered env) _
          (λ u. raise (http_exception status))
          (Ends-after {A = Unit {0}} {B = Unit {0}} (λ u. Took HasBudget)
            (λ u. Took (HasAll status)) (IsAnswered env)
            (release_budget env none s.budgeted_execution s)
            (λ u. close_rest env status code s none)
            (Ends-weaken {A = Unit {0}} (λ u. Took HasBudget) (λ u. Took HasBudget) (λ e t. ⊥)
              (IsAnswered env) (release_budget env none s.budgeted_execution s)
              (Took-release_budget s.budgeted_execution refl quiet) (λ u t h. h)
              (λ e t h. absurd h))
            (λ u t (acts, same, budget).
              rw same (Answered-close_rest status code acts unstored budget)))
          (λ u t (taken, same, had). (
            status,
            refl,
            rw same (compensated status taken unstored had.0 (inl had.1) (inl had.2)),
          ))

    -- where one is stored
    Answered-stored :
        (A : Type 0) (status : ℕ) (code : FailureCode) (execution : String)
        → Matches env status code
        → s.persisted_execution ≡ some execution
        → s.acts ≡ []
        → Ends {A = A}
            (λ a t. ⊥)
            (IsAnswered env)
            (after
              ((release_budget env (some execution) s.budgeted_execution
                  >> close_rest env status code s (some execution))
                s)
              (λ u. raise (http_exception status)))
    unfolding Matches
    Answered-stored A status code execution match stored quiet =
        elim (Bool-cases (env.finalizes status code)) [
          | inl ends ↦ rw ends (
            status,
            refl,
            of_stored (finalize_failed status code ∷ s.acts)
                (rw ends (ap (λ acts. finalize_failed status code ∷ acts) quiet)),
          )
          | inr fails ↦ rw fails (status, refl, of_stored s.acts (rw fails quiet))
        ]
      where
        of_stored :
            (acts : List Act)
            → acts ≡ (if env.finalizes status code then finalize_failed status code ∷ [] else [])
            → IsCompensated env status (record s { acts = acts })
        of_stored acts ended = record {
          stored = λ other h. (code, ended, match);
          budget = λ h. absurd (none-ne-some execution (sym h ∙ stored));
          decision = λ h. absurd (none-ne-some execution (sym h ∙ stored));
          lease = λ h. absurd (none-ne-some execution (sym h ∙ stored));
        }

    pub Answered-fail :
        (A : Type 0) (status : ℕ) (code : FailureCode) (o : Option String)
        → Matches env status code
        → s.persisted_execution ≡ o
        → s.acts ≡ []
        → Ends {A = A}
            (λ a t. ⊥)
            (IsAnswered env)
            (after
              ((release_budget env o s.budgeted_execution >> close_rest env status code s o) s)
              (λ u. raise (http_exception status)))
    Answered-fail A status code none match same quiet = Answered-unstored A status code same quiet
    Answered-fail A status code (some execution) match same quiet =
        Answered-stored A status code execution match same quiet

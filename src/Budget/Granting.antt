-- ===== src/Budget/Granting.antt =====
-- How much the gate grants over many requests.
use eiraos_chat_backend.Prelude.{
  ◌≡◌, refl, sym, ap, Option, none, some, Bool, true, false, if◌then◌else◌, arith, List, [], ◌∷◌,
}
use eiraos_chat_backend.Prelude.Int.{ℤ, pos, ◌+ℤ◌, ◌≤ℤ◌, ltb_ℤ, int_laws, pos_part, neg_part}
use eiraos_chat_backend.Prelude.Result.{Result, ok, err}
use eiraos_chat_backend.Budget.Gate.{
  after_try, after_validation, UsageBudgetError, UsageBudgetGate, exceeds, validate, minus,
  try_reserve, reserve_or_raise,
}

abbrev pub is_ok {ℓ κ} : {E : Type κ} {A : Type ℓ} → Result E A → Bool
is_ok (ok a) = true
is_ok (err e) = false

abbrev pub AllOk {ℓ κ} : {E : Type κ} {A : Type ℓ} → (A → Type 0) → Result E A → Type 0
AllOk P (ok a) = P a
AllOk P (err e) = Unit

-- A request: its cost and the verifier's.
abbrev pub Request : Type 0
Request = ℤ × ℤ

-- A run of requests: the sum that was granted, and the gate that is left.
unfoldable pub run : List Request → UsageBudgetGate → ℤ × UsageBudgetGate
run [] g = (pos 0, g)
run ((cost, verification) ∷ rest) g =
    let (granted, g') = try_reserve cost verification g in
    let (total, g'') = run rest g' in
    ((if granted then cost +ℤ verification else pos 0) +ℤ total, g'')

abbrev pub IsFunded : Option ℤ → Type 0
IsFunded none = Unit
IsFunded (some n) = pos 0 ≤ℤ n

abbrev pub Balances : Option ℤ → ℤ → Option ℤ → Type 0
Balances none spent none = Unit
Balances none spent (some n) = ⊥
Balances (some m) spent none = ⊥
Balances (some m) spent (some n) = (n +ℤ spent ≡ m) × (pos 0 ≤ℤ n)

-- what an accepted request has passed
pub record IsAccepted (g : UsageBudgetGate) (cost verification required : ℤ) : Type 0 where
  pub available : g.backend_available ≡ true
  pub sum : required ≡ cost +ℤ verification
  pub costs : (pos 0 ≤ℤ cost) × (pos 0 ≤ℤ verification)
  pub in_execution : exceeds required g.max_execution_cost ≡ false
  pub in_user : exceeds required g.user_remaining ≡ false
  pub in_organization : exceeds required g.organization_remaining ≡ false

pub validate-IsAccepted :
    (g : UsageBudgetGate) (cost verification : ℤ) {required : ℤ}
    → validate g cost verification ≡ ok required
    → IsAccepted g cost verification required
unfolding validate
validate-IsAccepted g cost verification h = record {
  available = ground (arith, h);
  sum = ground (arith, h);
  costs = ground (arith, h);
  in_execution = ground (arith, h);
  in_user = ground (arith, h);
  in_organization = ground (arith, h);
}

le_of_test : (m spent : ℤ) → ltb_ℤ m spent ≡ false → spent ≤ℤ m
le_of_test m spent h = ground (arith, h)

minus-Balances :
    (o : Option ℤ) (spent : ℤ) → exceeds spent o ≡ false → Balances o spent (minus o spent)
minus-Balances none spent h = tt
minus-Balances (some m) spent h = (omega int_laws, omega (int_laws, le_of_test m spent h))

keep-Balances : (o : Option ℤ) → IsFunded o → Balances o (pos 0) o
keep-Balances none h = tt
keep-Balances (some n) h = (omega int_laws, h)

-- one step
try_reserve-Balances :
    (cost verification : ℤ) (g : UsageBudgetGate)
    → IsFunded g.user_remaining
    → IsFunded g.organization_remaining
    → let (granted, g') = try_reserve cost verification g in
      let spent = if granted then cost +ℤ verification else pos 0 in
      Balances g.user_remaining spent g'.user_remaining
      × Balances g.organization_remaining spent g'.organization_remaining
unfolding try_reserve
try_reserve-Balances cost verification g hu ho = go (validate g cost verification) refl
  where
    go :
        (r : Result UsageBudgetError ℤ)
        → validate g cost verification ≡ r
        → let (granted, g') = after_try g r in
          let spent = if granted then cost +ℤ verification else pos 0 in
          Balances g.user_remaining spent g'.user_remaining
          × Balances g.organization_remaining spent g'.organization_remaining
    go (err e) h = (keep-Balances g.user_remaining hu, keep-Balances g.organization_remaining ho)
    go (ok required) h =
        let a = validate-IsAccepted g cost verification h in
        rw (sym a.sum) (
          minus-Balances g.user_remaining required a.in_user,
          minus-Balances g.organization_remaining required a.in_organization,
        )

Balances-IsFunded : (o : Option ℤ) (spent : ℤ) (o' : Option ℤ) → Balances o spent o' → IsFunded o'
Balances-IsFunded none spent none b = tt
Balances-IsFunded none spent (some n) b = absurd b
Balances-IsFunded (some m) spent none b = tt
Balances-IsFunded (some m) spent (some n) b = b.1

Balances-trans :
    (o : Option ℤ) (first : ℤ) (o' : Option ℤ) (second : ℤ) (o'' : Option ℤ)
    → Balances o first o'
    → Balances o' second o''
    → Balances o (first +ℤ second) o''
Balances-trans none first none second none b c = tt
Balances-trans none first none second (some n) b c = c
Balances-trans none first (some n) second o b c = absurd b
Balances-trans (some m) first none second o b c = absurd b
Balances-trans (some m) first (some n) second none b c = c
Balances-trans (some m) first (some n) second (some k) b c =
    (omega (int_laws, ap pos_part b.0, ap neg_part b.0, ap pos_part c.0, ap neg_part c.0), c.1)

-- However many requests the gate serves, and in any order: what is left of the user's budget plus
-- everything that was granted is the budget at the start, it is never negative, and the same holds
-- of the organization's budget; an absent limit stays absent.
pub run-Balances :
    (requests : List Request) (g : UsageBudgetGate)
    → IsFunded g.user_remaining
    → IsFunded g.organization_remaining
    → let (granted, g') = run requests g in
      Balances g.user_remaining granted g'.user_remaining
      × Balances g.organization_remaining granted g'.organization_remaining
unfolding run
run-Balances [] g hu ho =
    (keep-Balances g.user_remaining hu, keep-Balances g.organization_remaining ho)
run-Balances ((cost, verification) ∷ rest) g hu ho =
    let (granted, g') = try_reserve cost verification g in
    let step = try_reserve-Balances cost verification g hu ho in
    let later =
      run-Balances rest g' (Balances-IsFunded _ _ _ step.0) (Balances-IsFunded _ _ _ step.1) in
    (Balances-trans _ _ _ _ _ step.0 later.0, Balances-trans _ _ _ _ _ step.1 later.1)

-- The raising entry point grants what the other grants, with the same effect, and reports the sum.
pub reserve-try :
    (user_id organization_id cost verification : ℤ) (g : UsageBudgetGate)
    → let (r, g') = reserve_or_raise user_id organization_id cost verification g in
      (try_reserve cost verification g ≡ (is_ok r, g'))
      × AllOk (λ u. u.total_reserved_cost ≡ cost +ℤ verification) r
unfolding reserve_or_raise try_reserve
reserve-try user_id organization_id cost verification g = go (validate g cost verification) refl
  where
    go :
        (v : Result UsageBudgetError ℤ)
        → validate g cost verification ≡ v
        → let (r, g') = after_validation user_id organization_id cost verification g v in
          (after_try g v ≡ (is_ok r, g'))
          × AllOk (λ u. u.total_reserved_cost ≡ cost +ℤ verification) r
    go (err e) h = (refl, tt)
    go (ok required) h = (refl, (validate-IsAccepted g cost verification h).sum)

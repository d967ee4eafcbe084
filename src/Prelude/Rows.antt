-- ===== src/Prelude/Rows.antt =====
-- A database table as the list of its rows, in insertion order. `select` is a query that is
-- answered by at most one row, `update` writes the row that such a query found, `update_all` and
-- `delete_all` are the bulk statements.
use Prim.Native.Nat.{ℕ, ◌+◌}
use mathlib.Core.Path.{◌≡◌, refl}
use mathlib.Core.Bool.{Bool, true, false}
use mathlib.Core.Option
use mathlib.Core.Option.{Option, none, some}
use mathlib.Core.List.{List, [], ◌∷◌, ◌++◌}
use native.Mathlib.Omega.{arith}
use mathlib.Core.Logic.{inl, inr}
use eiraos_chat_backend.Prelude.Tests.{if◌then◌else◌, Bool-cases}

module _ {ℓ} {A : Type ℓ} where
  unfoldable pub select : (A → Bool) → List A → Option A
  select p [] = none
  select p (x ∷ xs) = if p x then some x else select p xs

  unfoldable pub update : (A → Bool) → (A → A) → List A → List A
  update p f [] = []
  update p f (x ∷ xs) = if p x then f x ∷ xs else x ∷ update p f xs

  -- the rows of the query, in the table's order
  unfoldable pub select_all : (A → Bool) → List A → List A
  select_all p [] = []
  select_all p (x ∷ xs) = let rest = select_all p xs in if p x then x ∷ rest else rest

  unfoldable pub update_all : (A → Bool) → (A → A) → List A → List A
  update_all p f [] = []
  update_all p f (x ∷ xs) = (if p x then f x else x) ∷ update_all p f xs

  unfoldable pub delete_all : (A → Bool) → List A → List A
  delete_all p [] = []
  delete_all p (x ∷ xs) = let rest = delete_all p xs in if p x then rest else x ∷ rest

  unfoldable pub delete : (A → Bool) → List A → List A
  delete p [] = []
  delete p (x ∷ xs) = if p x then xs else x ∷ delete p xs

  -- the number of rows that a bulk statement touches
  unfoldable pub rowcount : (A → Bool) → List A → ℕ
  rowcount p [] = 0
  rowcount p (x ∷ xs) = (if p x then 1 else 0) + rowcount p xs

  pub select-append :
      (p : A → Bool) (xs : List A) (y : A)
      → select p xs ≡ none
      → p y ≡ true
      → select p (xs ++ y ∷ []) ≡ some y
  unfolding select
  select-append p [] y h e = ground arith
  select-append p (x ∷ xs) y h e = ground (arith, select-append p xs y)

  pub select-append_ne :
      (p : A → Bool) (xs : List A) (y : A) → p y ≡ false → select p (xs ++ y ∷ []) ≡ select p xs
  unfolding select
  select-append_ne p [] y e = ground arith
  select-append_ne p (x ∷ xs) y e = ground (arith, select-append_ne p xs y e)

  -- the row that a query found is the row that the write leaves, while it still answers it
  pub select-update :
      (p : A → Bool) (f : A → A) (xs : List A)
      → ((x : A) → p (f x) ≡ p x)
      → select p (update p f xs) ≡ Option.map f (select p xs)
  unfolding select update
  select-update p f [] keep = refl
  select-update p f (x ∷ xs) keep = ground (arith, keep x, select-update p f xs keep)

  pub select-update_all :
      (p q : A → Bool) (f : A → A) (xs : List A)
      → ((x : A) → p (f x) ≡ p x)
      → select p (update_all q f xs) ≡ Option.map (λ x. if q x then f x else x) (select p xs)
  unfolding select update_all
  select-update_all p q f [] keep = refl
  select-update_all p q f (x ∷ xs) keep = ground (arith, keep x, select-update_all p q f xs keep)

  pub select-satisfies : (p : A → Bool) (xs : List A) {y : A} → select p xs ≡ some y → p y ≡ true
  unfolding select
  select-satisfies p [] h = ground arith
  select-satisfies p (x ∷ xs) {y} h = ground (arith, select-satisfies p xs {y = y})

  -- the same for one row that is known, and the rows of another query
  pub select-update_found :
      (p : A → Bool) (f : A → A) (xs : List A) {x : A}
      → select p xs ≡ some x
      → p (f x) ≡ true
      → select p (update p f xs) ≡ some (f x)
  unfolding select update
  select-update_found p f [] h e = ground arith
  select-update_found p f (y ∷ xs) {x} h e = elim (Bool-cases (p y)) [
    | inl yes_here ↦ let same : y ≡ x = cc (rw yes_here at h) in rw (yes_here, same, e)
    | inr not_here ↦ rw (not_here, not_here) (select-update_found p f xs (rw not_here at h) e)
  ]

  pub select-update_other :
      (p q : A → Bool) (f : A → A) (xs : List A)
      → ((x : A) → p x ≡ true → q x ≡ false)
      → ((x : A) → p x ≡ true → q (f x) ≡ false)
      → select q (update p f xs) ≡ select q xs
  unfolding select update
  select-update_other p q f [] before after = refl
  select-update_other p q f (y ∷ xs) before after = elim (Bool-cases (p y)) [
    | inl here ↦ rw (here, before y here, after y here)
    | inr there ↦ rw (there, select-update_other p q f xs before after)
  ]

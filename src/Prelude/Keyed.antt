-- ===== src/Prelude/Keyed.antt =====
-- Tables with a unique key: what the queries, writes and deletes by one key do to it.
use mathlib.Core.Path.{◌≡◌, refl, sym, ◌∙◌}
use mathlib.Core.Logic.{◌↔◌, inl, inr}
use mathlib.Core.Bool.{Bool, true, false, false≢true}
use mathlib.Core.Option.{none, some}
use mathlib.Core.List.{List, [], ◌∷◌, ◌++◌}
use native.Mathlib.Omega.{arith}
use eiraos_chat_backend.Prelude.Tests.{if◌then◌else◌, Bool-cases}
use eiraos_chat_backend.Prelude.Rows.{
  select, update, update_all, delete, delete_all, rowcount, select-append_ne,
}

module _ {ℓ} {A : Type ℓ} where
  pub select_weaken :
      (p q : A → Bool) (xs : List A)
      → ((x : A) → p x ≡ true → q x ≡ true)
      → select q xs ≡ none
      → select p xs ≡ none
  unfolding select
  select_weaken p q [] sub h = refl
  select_weaken p q (x ∷ xs) sub h = ground (arith, sub x, select_weaken p q xs sub)

  pub select-delete_all-none :
      (p q : A → Bool) (xs : List A) → select p xs ≡ none → select p (delete_all q xs) ≡ none
  unfolding select delete_all
  select-delete_all-none p q [] h = refl
  select-delete_all-none p q (y ∷ xs) h = ground (arith, select-delete_all-none p q xs)

  pub select-delete-none :
      (p q : A → Bool) (xs : List A) → select p xs ≡ none → select p (delete q xs) ≡ none
  unfolding select delete
  select-delete-none p q [] h = refl
  select-delete-none p q (y ∷ xs) h = ground (arith, select-delete-none p q xs)

  pub update_all-none :
      (p : A → Bool) (f : A → A) (xs : List A) → select p xs ≡ none → update_all p f xs ≡ xs
  unfolding select update_all
  update_all-none p f [] h = refl
  update_all-none p f (x ∷ xs) h = ground (arith, update_all-none p f xs)

  pub rowcount-none : (p : A → Bool) (xs : List A) → select p xs ≡ none → rowcount p xs ≡ 0
  unfolding select rowcount
  rowcount-none p [] h = refl
  rowcount-none p (x ∷ xs) h = ground (arith, rowcount-none p xs)

module _ {ℓ κ} {A : Type ℓ} {K : Type κ} (key : A → K) (eq : K → K → Bool) where
  -- WHERE key = k
  abbrev pub at_key : K → A → Bool
  at_key k x = eq (key x) k

  abbrev pub IsUnique : List A → Type (ℓ ⊔ κ)
  IsUnique [] = Unit
  IsUnique (x ∷ xs) = (select (at_key (key x)) xs ≡ none) × IsUnique xs

module _ {ℓ κ} {A : Type ℓ} {K : Type κ} (key : A → K) (eq : K → K → Bool)
    (law : (a b : K) → (eq a b ≡ true) ↔ (a ≡ b)) where
  pub eq_ne : (a b : K) → (a ≡ b → ⊥) → eq a b ≡ false
  eq_ne a b h = elim (Bool-cases (eq a b)) [ inl e ↦ absurd (h ((law a b).0 e)) | inr e ↦ e ]

  -- behind the row that a query found, no other answers it
  at_key-tail :
      (k : K) (x : A) (xs : List A)
      → select (at_key key eq (key x)) xs ≡ none
      → at_key key eq k x ≡ true
      → select (at_key key eq k) xs ≡ none
  at_key-tail k x xs h e = rw ((law (key x) k).0 e) at h

  pub select-delete_self :
      (k : K) (xs : List A)
      → IsUnique key eq xs
      → select (at_key key eq k) (delete (at_key key eq k) xs) ≡ none
  unfolding select delete
  select-delete_self k [] u = refl
  select-delete_self k (x ∷ xs) u =
      ground (arith, at_key-tail k x xs u.0, select-delete_self k xs u.1)

  pub IsUnique-delete :
      (p : A → Bool) (xs : List A) → IsUnique key eq xs → IsUnique key eq (delete p xs)
  unfolding delete
  IsUnique-delete p [] u = tt
  IsUnique-delete p (x ∷ xs) u = elim (Bool-cases (p x)) [
    | inl e ↦ rw e u.1
    | inr e ↦ rw e (select-delete-none (at_key key eq (key x)) p xs u.0, IsUnique-delete p xs u.1)
  ]

  pub IsUnique-delete_all :
      (p : A → Bool) (xs : List A) → IsUnique key eq xs → IsUnique key eq (delete_all p xs)
  unfolding delete_all
  IsUnique-delete_all p [] u = tt
  IsUnique-delete_all p (x ∷ xs) u = elim (Bool-cases (p x)) [
    | inl e ↦ rw e (IsUnique-delete_all p xs u.1)
    | inr e ↦
        rw e (select-delete_all-none (at_key key eq (key x)) p xs u.0, IsUnique-delete_all p xs u.1)
  ]

  select-update-none :
      (k : K) (p : A → Bool) (f : A → A) (xs : List A)
      → ((x : A) → key (f x) ≡ key x)
      → select (at_key key eq k) xs ≡ none
      → select (at_key key eq k) (update p f xs) ≡ none
  unfolding select update
  select-update-none k p f [] keep h = refl
  select-update-none k p f (x ∷ xs) keep h =
      ground (arith, keep x, select-update-none k p f xs keep)

  -- a write that leaves the key alone
  pub IsUnique-update :
      (p : A → Bool) (f : A → A) (xs : List A)
      → ((x : A) → key (f x) ≡ key x)
      → IsUnique key eq xs
      → IsUnique key eq (update p f xs)
  unfolding update
  IsUnique-update p f [] keep u = tt
  IsUnique-update p f (x ∷ xs) keep u = elim (Bool-cases (p x)) [
    | inl e ↦ rw e (rw (keep x) u.0, u.1)
    | inr e ↦ rw e (select-update-none (key x) p f xs keep u.0, IsUnique-update p f xs keep u.1)
  ]

  select-update_all-none :
      (k : K) (p : A → Bool) (f : A → A) (xs : List A)
      → ((x : A) → key (f x) ≡ key x)
      → select (at_key key eq k) xs ≡ none
      → select (at_key key eq k) (update_all p f xs) ≡ none
  unfolding select update_all
  select-update_all-none k p f [] keep h = refl
  select-update_all-none k p f (x ∷ xs) keep h =
      ground (arith, keep x, select-update_all-none k p f xs keep)

  pub IsUnique-update_all :
      (p : A → Bool) (f : A → A) (xs : List A)
      → ((x : A) → key (f x) ≡ key x)
      → IsUnique key eq xs
      → IsUnique key eq (update_all p f xs)
  unfolding update_all
  IsUnique-update_all p f [] keep u = tt
  IsUnique-update_all p f (x ∷ xs) keep u = elim (Bool-cases (p x)) [
    | inl e ↦ rw e (
      rw (keep x) (select-update_all-none (key x) p f xs keep u.0),
      IsUnique-update_all p f xs keep u.1,
    )
    | inr e ↦
        rw e (select-update_all-none (key x) p f xs keep u.0, IsUnique-update_all p f xs keep u.1)
  ]

  eq_sym : (a b : K) → eq a b ≡ false → eq b a ≡ false
  eq_sym a b h = elim (Bool-cases (eq b a)) [
    | inl e ↦ absurd (false≢true (sym h ∙ (law a b).1 (sym ((law b a).0 e))))
    | inr e ↦ e
  ]

  pub IsUnique-append :
      (xs : List A) (y : A)
      → select (at_key key eq (key y)) xs ≡ none
      → IsUnique key eq xs
      → IsUnique key eq (xs ++ y ∷ [])
  unfolding select
  IsUnique-append [] y h u = (refl, tt)
  IsUnique-append (x ∷ xs) y h u = elim (Bool-cases (eq (key x) (key y))) [
    | inl e ↦ absurd (ground (arith, e, h))
    | inr e ↦ (
      select-append_ne (at_key key eq (key x)) xs y (eq_sym (key x) (key y) e) ∙ u.0,
      IsUnique-append xs y (ground (arith, e, h)) u.1,
    )
  ]

  -- A bulk write through a query by the key, narrowed by a test, touches at most the row found.
  rowcount-tail :
      (k : K) (p : A → Bool) (xs : List A)
      → ((x : A) → p x ≡ true → at_key key eq k x ≡ true)
      → select (at_key key eq k) xs ≡ none
      → rowcount p xs ≡ 0
  rowcount-tail k p xs sub h = rowcount-none p xs (select_weaken p (at_key key eq k) xs sub h)

  pub rowcount_found :
      (k : K) (p : A → Bool) (xs : List A) {x : A}
      → ((y : A) → p y ≡ true → at_key key eq k y ≡ true)
      → IsUnique key eq xs
      → select (at_key key eq k) xs ≡ some x
      → rowcount p xs ≡ (if p x then 1 else 0)
  unfolding select rowcount
  rowcount_found k p [] sub u h = ground arith
  rowcount_found k p (y ∷ xs) {x} sub u h = ground (
    arith,
    sub y,
    at_key-tail k y xs u.0,
    rowcount-tail k p xs sub,
    rowcount_found k p xs {x = x} sub u.1,
  )

  pub select_found :
      (k : K) (p : A → Bool) (xs : List A) {x : A}
      → ((y : A) → p y ≡ true → at_key key eq k y ≡ true)
      → IsUnique key eq xs
      → select (at_key key eq k) xs ≡ some x
      → select p xs ≡ (if p x then some x else none)
  unfolding select
  select_found k p [] sub u h = ground arith
  select_found k p (y ∷ xs) {x} sub u h = ground (
    arith,
    sub y,
    at_key-tail k y xs u.0,
    select_weaken p (at_key key eq k) xs sub,
    select_found k p xs {x = x} sub u.1,
  )

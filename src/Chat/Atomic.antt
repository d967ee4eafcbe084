-- ===== src/Chat/Atomic.antt =====
-- What is seen of the end of an execution, however its transaction goes.
use eiraos_chat_backend.Prelude.{◌≡◌, ◌⊎◌, refl, inl, inr}
use eiraos_chat_backend.Prelude.Result.{Result, ok, err}
use eiraos_chat_backend.Chat.Database.{Database}
use eiraos_chat_backend.Chat.Session.{
  PersistenceError, Commit, done, refused, lost, Ending, end_transaction,
}

-- Tables that changed are the ones of the transaction that was committed.
pub end_transaction-cases :
    {A : Type 0} (c : Commit) (db : Database) (t : Ending A)
    → ((end_transaction c db t).1 ≡ db)
      ⊎ ((r : Result PersistenceError A) × (t ≡ ok (r, (end_transaction c db t).1)))
unfolding end_transaction
end_transaction-cases done db (ok (r, d)) = inr (r, refl)
end_transaction-cases refused db (ok (r, d)) = inl refl
end_transaction-cases lost db (ok (r, d)) = inr (r, refl)
end_transaction-cases done db (err r) = inl refl
end_transaction-cases refused db (err r) = inl refl
end_transaction-cases lost db (err r) = inl refl

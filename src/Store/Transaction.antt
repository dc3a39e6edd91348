-- ===== src/Store/Transaction.antt =====
-- api/store/transaction.go. The function that runs in the transaction also gives the value that it
-- leaves in a captured variable.
use youtube_ar.Base.{Result, ok, err, GoError, M}

module _ {S A : Type 0} (begin_tx : M S (Unit {0})) (commit rollback : M S (Unit {0})) where
  -- After an error of `f`: the error of the rollback, or that of `f`.
  abbrev pub rolled_back : GoError → Result (Unit {0}) × S → Result A × S
  rolled_back e (err e', s) = (err e', s)
  rolled_back e (ok _, s) = (err e, s)

  -- After an error of the commit.
  abbrev pub rolled_back_commit : A → Result (Unit {0}) × S → Result A × S
  rolled_back_commit a (err e, s) = (err e, s)
  rolled_back_commit a (ok _, s) = (ok a, s)

  abbrev pub committed : A → Result (Unit {0}) × S → Result A × S
  committed a (ok _, s) = (ok a, s)
  committed a (err e, s) = rolled_back_commit a (rollback s)

  abbrev pub ran : Result A × S → Result A × S
  ran (ok a, s) = committed a (commit s)
  ran (err e, s) = rolled_back e (rollback s)

  abbrev pub begun : M S A → Result (Unit {0}) × S → Result A × S
  begun f (ok _, s) = ran (f s)
  begun f (err e, s) = (err e, s)

  unfoldable pub transaction : M S A → M S A
  transaction f s = begun f (begin_tx s)

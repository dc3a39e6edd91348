-- ===== src/Base/Results.antt =====
-- Go's error values and the results of fallible functions; computations over a state; contexts.
use Prim.Native.String.{String}
use mathlib.Core.Path.{◌≡◌, refl}
use mathlib.Core.Logic.{◌⊎◌, ◌≢◌, inl, inr}
use native.Mathlib.Omega.{arith}

-- The error values that the program compares, and any other by its text.
pub data GoError : Type 0 where
  redis_nil no_rows canceled deadline_exceeded : GoError
  failed : String → GoError

-- `err.Error()`
unfoldable pub error_text : GoError → String
error_text redis_nil = "redis: nil"
error_text no_rows = "sql: no rows in result set"
error_text canceled = "context canceled"
error_text deadline_exceeded = "context deadline exceeded"
error_text (failed text) = text

pub data Result {ℓ} (A : Type ℓ) : Type ℓ where
  ok : A → Result A
  err : GoError → Result A

-- A context, by what `ctx.Err()` gives when it is read.
pub data Context : Type 0 where
  live : Context
  done : GoError → Context

-- A call over a state `S`: its result and the state after it.
abbrev pub M : Type 0 → Type 0 → Type 0
M S A = S → Result A × S

module _ {S : Type 0} where
  abbrev pub pure : {A : Type 0} → A → M S A
  pure a s = (ok a, s)

  abbrev pub fail : {A : Type 0} → GoError → M S A
  fail e s = (err e, s)

  abbrev pub and_then : {A B : Type 0} → Result A × S → (A → M S B) → Result B × S
  and_then (ok a, s) k = k a s
  and_then (err e, s) k = (err e, s)

  -- `if err != nil { return err }` between two calls.
  infixl 5 ◌>>=◌ ◌>>◌
  abbrev pub ◌>>=◌ : {A B : Type 0} → M S A → (A → M S B) → M S B
  ◌>>=◌ m k s = and_then (m s) k

  abbrev pub ◌>>◌ : {B : Type 0} → M S (Unit {0}) → M S B → M S B
  m >> k = m >>= λ _. k

pub Result-cases {ℓ} :
    {A : Type ℓ} (r : Result A) → ((a : A) × (r ≡ ok a)) ⊎ ((e : GoError) × (r ≡ err e))
Result-cases (ok a) = inl (a, refl)
Result-cases (err e) = inr (e, refl)

pub ok-injective {ℓ} : {A : Type ℓ} (a b : A) → ◌≡◌ {A = Result A} (ok a) (ok b) → a ≡ b
ok-injective a b h = ground arith

pub err-ne-ok {ℓ} : {A : Type ℓ} (e : GoError) (a : A) → ◌≢◌ {A = Result A} (err e) (ok a)
err-ne-ok e a h = ground arith

pub and_then-err :
    {S A B : Type 0} (x : Result A × S) (e : GoError) (k : A → S → Result B × S)
    → x.0 ≡ err e
    → and_then x k ≡ (err e, x.1)
and_then-err (ok a, s) e k h = cc
and_then-err (err y, s) e k h = ground arith

pub and_then-ok :
    {S A B : Type 0} (x : Result A × S) (a : A) (k : A → S → Result B × S)
    → x.0 ≡ ok a
    → and_then x k ≡ k a x.1
and_then-ok (ok b, s) a k h = ground arith
and_then-ok (err y, s) a k h = cc

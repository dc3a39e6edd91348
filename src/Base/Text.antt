-- ===== src/Base/Text.antt =====
-- Equality of whole texts, decided by `str_eq`.
use Prim.Native.Nat.{ℕ, ◌+◌}
use Prim.Native.String.{String, ◌++◌ as ◌<>◌, count}
use mathlib.Core.Path.{◌≡◌, ap}
use mathlib.Core.Logic.{◌≢◌}
use mathlib.Core.Bool.{true, false}
use native.Mathlib.Omega.{arith}
use text.Mathlib.Text.{◌==◌ as str_eq}
use text.Mathlib.TextEquality.{eq_iff}
use text.Mathlib.TextPositions.{eq_refl}
use text.Mathlib.TextLemmas.{length-append, append_cancel_left}

pub str_eq_refl : (s : String) → str_eq s s ≡ true
str_eq_refl s = eq_refl s

pub str_eq_of_ne : (s t : String) → s ≢ t → str_eq s t ≡ false
str_eq_of_ne s t h = ground (arith, eq_iff s t)

pub append-ne_self : (s t : String) → (n : ℕ) → count t ≡ n + 1 → s <> t ≢ s
append-ne_self s t n e h = omega (arith, ap count h, length-append s t)

pub append-ne-append : (s t u : String) → t ≢ u → s <> t ≢ s <> u
append-ne-append s t u h e = h (append_cancel_left s t u e)

-- ===== src/Cmd/Limit.antt =====
-- The flag -limit of the command list-logs.
use youtube_ar.Base.{
  ℕ, String, List, [], ◌∷◌, Option, none, some, ◌≡◌, refl, inl, inr, Option-cases, Context,
}
use youtube_ar.Sql.{Querier}
use youtube_ar.Redis.{Redis}
use youtube_ar.Cmd.{Setup, Machine, with_flags, list_logs}
use youtube_ar.Cmd.Flags.{FlagSet, Assigned, int64_var, set, parse}

abbrev logs_flags : FlagSet
logs_flags = ("url-id", int64_var) ∷ ("cursor", int64_var) ∷ ("limit", int64_var) ∷ []

module _ (parse_int64 : String → Option ℕ) (value : String) (n : ℕ)
    (number : parse_int64 value ≡ some n) where
  set_limit :
      (more : Option Assigned)
      → set parse_int64 logs_flags "limit" value more
        ≡ elim more [ none ↦ none | some l ↦ some (("limit", value) ∷ l) ]
  set_limit none = refl
  set_limit (some l) = rw number refl

  parse_limit :
      (args : List String)
      → parse parse_int64 logs_flags ("-limit" ∷ value ∷ args)
        ≡ elim (parse parse_int64 logs_flags args) [
          | none ↦ none
          | some l ↦ some (("limit", value) ∷ l)
        ]
  unfolding parse
  parse_limit args = set_limit (parse parse_int64 logs_flags args)

-- The command list-logs does the same with a limit as without, whatever the limit and the arguments
-- after it are: the logs are read, printed and returned without one.
pub list_logs_unlimited :
    (r : Redis) (db : Querier) (setup : Setup) (ctx : Context) (value : String) (n : ℕ)
    (args : List String) (m : Machine r db setup ctx)
    → setup.parse_int64 value ≡ some n
    → list_logs r db setup ctx ("-limit" ∷ value ∷ args) m ≡ list_logs r db setup ctx args m
unfolding list_logs
list_logs_unlimited r db setup ctx value n args m number =
    let read = parse_limit setup.parse_int64 value n number args in
    elim (Option-cases (parse setup.parse_int64 logs_flags args)) [
      | inl e ↦ rw (with_flags, read, e) refl
      | inr (l, e) ↦ rw (with_flags, read, e) refl
    ]

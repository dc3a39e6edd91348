-- ===== src/Cmd/Create.antt =====
-- What the command create-url does to the database and the queues.
use youtube_ar.Base.{
  String, failed, List, [], ◌∷◌, Option, none, some, Result, ok, err, GoError, ◌≡◌, ◌≢◌, refl, ◌⊎◌,
  inl, inr, arith, Bool-cases, Result-cases, Context, str_eq, eq_iff,
}
use youtube_ar.Event.{UrlPayload}
use youtube_ar.Sql.{Querier}
use youtube_ar.Redis.{Redis}
use youtube_ar.Manager.Server as Manager
use youtube_ar.Cmd.{
  CommandEnd, returned, Setup, Machine, Run, create_url, end_with, checked, required, with_flags,
  run_op,
}
use youtube_ar.Cmd.Flags.{FlagSet, Assigned, string_var, parse, string_value}

-- Arguments that give a url by the flag `-url`, once or more: the last one counts.
pub data GivesUrl (url : String) : List String → Type 0 where
  given : GivesUrl url ("-url" ∷ url ∷ [])
  replaced :
      {args : List String} (earlier : String)
      → GivesUrl url args
      → GivesUrl url ("-url" ∷ earlier ∷ args)

module _ (r : Redis) (db : Querier) (setup : Setup) (ctx : Context) where
  abbrev url_flags : FlagSet
  url_flags = ("url", string_var) ∷ []

  GivesUrl-parse :
      {url : String} {args : List String}
      → GivesUrl url args
      → (assigned : Assigned) × (parse setup.parse_int64 url_flags args ≡ some assigned)
        × ((missing : String) → string_value "url" missing assigned ≡ url)
  unfolding parse string_value
  GivesUrl-parse {url = url} given = (("url", url) ∷ [], refl, λ missing. refl)
  GivesUrl-parse (replaced earlier given) =
      (("url", earlier) ∷ ("url", _) ∷ [], refl, λ missing. refl)
  GivesUrl-parse (replaced earlier (replaced later gives)) =
      let (assigned, e, same) = GivesUrl-parse (replaced later gives) in
      (("url", earlier) ∷ assigned, rw e refl, λ missing. same earlier)

  abbrev pub first_payload : String → UrlPayload
  first_payload url = record { url = url; retries = 0 }

  -- The error of a result, or nil.
  abbrev pub error_of : {A : Type 0} → Result A → Option GoError
  error_of (ok _) = none
  error_of (err e) = some e

  -- Why the command stops before it creates a url.
  abbrev pub Refuses : String → GoError → Type 0
  Refuses url e =
      ((url ≡ "") × (e ≡ failed "url is required"))
      ⊎ (setup.redis ≡ err e)
      ⊎ (setup.db ≡ err e)
      ⊎ (setup.parse_url url ≡ err e)

  -- The command stops and changes nothing, for one of these reasons, or nothing fails and it does what
  -- the manager does with the url.
  abbrev pub Runs : String → Machine r db setup ctx → CommandEnd × Machine r db setup ctx → Type 0
  Runs url m (ended, m') =
      ((e : GoError) × Refuses url e × (ended ≡ returned (some e)) × (m' ≡ m))
      ⊎ ((url ≢ "")
          × (setup.redis ≡ ok tt)
          × (setup.db ≡ ok tt)
          × (setup.parse_url url ≡ ok tt)
          × (let (v, w) = Manager.create_url r db ctx (first_payload url) m.world in
              (ended ≡ returned (error_of v)) × (m' ≡ record m { world = w })))

  checked-Runs :
      (url : String) (a : Result (Unit {0})) (run : Unit {0} → Run r db setup ctx)
      (m : Machine r db setup ctx)
      → ((e : GoError) → a ≡ err e → Refuses url e)
      → (a ≡ ok tt → Runs url m (run tt m))
      → Runs url m (checked r db setup ctx a run m)
  checked-Runs url (err e) run m why h = inl (e, why e refl, refl, refl)
  checked-Runs url (ok tt) run m why h = h refl

  required-Runs :
      (url : String) (run : Run r db setup ctx) (m : Machine r db setup ctx)
      → (url ≢ "" → Runs url m (run m))
      → Runs url m (required r db setup ctx "url" url run m)
  required-Runs url run m h = elim (Bool-cases (str_eq url "")) [
    | inl e ↦
        rw e
          (inl (failed "url is required", inl (ground (arith, e, eq_iff url ""), refl), refl, refl))
    | inr e ↦ rw e (h (λ k. ground (arith, e, eq_iff url "")))
  ]

  -- The calls of the command, from the last to the first.
  abbrev creating : String → Run r db setup ctx
  creating url =
      run_op r db setup ctx (Manager.create_url r db ctx (first_payload url))
        λ _. end_with r db setup ctx none

  abbrev validating : String → Run r db setup ctx
  validating url = checked r db setup ctx (setup.parse_url url) λ _. creating url

  abbrev with_db : String → Run r db setup ctx
  with_db url = checked r db setup ctx setup.db λ _. validating url

  abbrev with_redis : String → Run r db setup ctx
  with_redis url = checked r db setup ctx setup.redis λ _. with_db url

  called :
      (url : String) (m : Machine r db setup ctx)
      → url ≢ ""
      → setup.redis ≡ ok tt
      → setup.db ≡ ok tt
      → setup.parse_url url ≡ ok tt
      → Runs url m (creating url m)
  called url m ne a b h =
      elim (Result-cases (Manager.create_url r db ctx (first_payload url) m.world).0) [
        | inl (v, e) ↦ inr (ne, a, b, h, rw e (refl, refl))
        | inr (x, e) ↦ inr (ne, a, b, h, rw e (refl, refl))
      ]

  required_called :
      (url : String) (m : Machine r db setup ctx)
      → Runs url m (required r db setup ctx "url" url (with_redis url) m)
  required_called url m = required-Runs url (with_redis url) m λ ne.
      checked-Runs url setup.redis (λ _. with_db url) m (λ e k. inr (inl k))
        λ a.
          checked-Runs url setup.db (λ _. validating url) m (λ e k. inr (inr (inl k)))
            λ b.
              checked-Runs url (setup.parse_url url) (λ _. creating url) m
                (λ e k. inr (inr (inr k))) λ h. called url m ne a b h

  -- With arguments that give a url by the flag -url, of which the last counts, the command create-url
  -- does exactly what CreateURL of the manager does with that url and no retries, and returns its error
  -- or nil. It stops before that, and changes nothing, only where the url is empty, with the error "url
  -- is required", or with the error of Redis, of the database or of url.Parse.
  pub create_url-Runs :
      {url : String} {args : List String} (m : Machine r db setup ctx)
      → GivesUrl url args
      → Runs url m (create_url r db setup ctx args m)
  unfolding create_url
  create_url-Runs {url = url} m gives =
      let (assigned, e, same) = GivesUrl-parse gives in
      rw (with_flags, e) (rw (same "") (required_called url m))

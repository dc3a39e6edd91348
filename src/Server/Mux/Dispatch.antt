-- ===== src/Server/Mux/Dispatch.antt =====
-- What the router promises of any routes: the first route in the order of registration whose path and
-- method fit, or the error that tells a wrong method from an unknown path.
use youtube_ar.Base.{
  ℕ, List, [], ◌∷◌, ◌++◌, Option, none, some, Bool, true, false, ◌||◌, ◌≡◌, ◌⊎◌, inl, inr, refl, ap,
  sym, ◌∙◌, All, if◌then◌else◌, Option-cases, Bool-cases,
}
use youtube_ar.Server.Http.{Method, status_text, http_error}
use youtube_ar.Server.Mux.{Route, route, nothing, handled, error, served, find, serve_http}

module _ {P : Type 0} (find_submatch : P → List ℕ → Option (List (List ℕ)))
    (same_method : Method → Method → Bool) (H : Type 0) (method : Method) (path : List ℕ) where
  abbrev Routes : Type 0
  Routes = List (Route find_submatch same_method H)

  -- The route's path does not match, or its method is another.
  abbrev pub IsUnfit : Route find_submatch same_method H → Type 0
  IsUnfit r = (find_submatch r.path path ≡ none) ⊎ (same_method r.method method ≡ false)

  abbrev pub any_path : Routes → Bool
  any_path [] = false
  any_path (r ∷ routes) = elim (find_submatch r.path path) [
    | none ↦ any_path routes
    | some _ ↦ true
  ]

  -- The first of the routes that fits, with its match.
  pub record First (routes : Routes) : Type 0 where
    pub before : Routes
    pub chosen : Route find_submatch same_method H
    pub after : Routes
    pub groups : List (List ℕ)
    pub at : routes ≡ before ++ chosen ∷ after
    pub unfit : All IsUnfit before
    pub matched : find_submatch chosen.path path ≡ some groups
    pub method_fits : same_method chosen.method method ≡ true

  abbrev later :
      (r : Route find_submatch same_method H) (routes : Routes)
      → IsUnfit r
      → First routes
      → First (r ∷ routes)
  later r routes u f = record {
    before = r ∷ f.before;
    chosen = f.chosen;
    after = f.after;
    groups = f.groups;
    at = ap (λ l. r ∷ l) f.at;
    unfit = (u, f.unfit);
    matched = f.matched;
    method_fits = f.method_fits;
  }

  abbrev Finds : Bool → Routes → Type 0
  Finds has_match routes =
      ((f : First routes) × (find find_submatch same_method H method path has_match routes
          ≡ route f.chosen.handler f.groups))
      ⊎ ((All IsUnfit routes)
          × (find find_submatch same_method H method path has_match routes
              ≡ nothing (has_match || any_path routes)))

  any_path_other :
      (r : Route find_submatch same_method H) (routes : Routes)
      → find_submatch r.path path ≡ none
      → any_path (r ∷ routes) ≡ any_path routes
  any_path_other r routes h = rw (any_path, h) refl

  any_path_here :
      (r : Route find_submatch same_method H) (routes : Routes) (m : List (List ℕ))
      → find_submatch r.path path ≡ some m
      → any_path (r ∷ routes) ≡ true
  any_path_here r routes m h = rw (any_path, h) refl

  or_false : (b : Bool) → b ≡ (b || false)
  or_false true = refl
  or_false false = refl

  or_true : (b : Bool) → true ≡ (b || true)
  or_true true = refl
  or_true false = refl

  refused :
      (b : Bool)
      → served find_submatch same_method H (nothing b) ≡ (
          if b
          then error 405 (http_error (status_text 405) 405)
          else error 404 (http_error (status_text 404) 404))
  refused true = refl
  refused false = refl

  find-Finds : (has_match : Bool) (routes : Routes) → Finds has_match routes
  unfolding find
  find-Finds has_match [] = inr (tt, ap nothing (or_false has_match))
  find-Finds has_match (r ∷ routes) = elim (Option-cases (find_submatch r.path path)) [
    | inl none_at ↦ elim (find-Finds has_match routes) [
      | inl (f, e) ↦ inl (later r routes (inl none_at) f, rw (find, none_at) e)
      | inr (u, e) ↦ inr (
        (inl none_at, u),
        rw (find, none_at)
            (e ∙ ap (λ b. nothing (has_match || b)) (sym (any_path_other r routes none_at))),
      )
    ]
    | inr (m, some_at) ↦ elim (Bool-cases (same_method r.method method)) [
      | inl fits ↦ inl (
        record {
          before = [];
          chosen = r;
          after = routes;
          groups = m;
          at = refl;
          unfit = tt;
          matched = some_at;
          method_fits = fits;
        },
        rw (find, some_at) (rw fits refl),
      )
      | inr other ↦ elim (find-Finds true routes) [
        | inl (f, e) ↦ inl (later r routes (inr other) f, rw (find, some_at) (rw other e))
        | inr (u, e) ↦ inr (
          (inr other, u),
          rw (find, some_at)
              (rw other (
                e
                ∙ ap nothing (or_true has_match)
                ∙ ap (λ b. nothing (has_match || b)) (sym (any_path_here r routes m some_at)))),
        )
      ]
    ]
  ]

  -- For any routes, a request is answered by the first route, in the order of registration, whose path
  -- matches and whose method is the request's, with the groups of its match; where there is none, it is
  -- answered with 405 if the path of any route matches, and with 404 if not.
  pub serve_http_dispatches :
      (routes : Routes)
      → let answer = serve_http find_submatch same_method H routes method path in
        ((f : First routes) × (answer ≡ handled f.chosen.handler f.groups))
        ⊎ ((All IsUnfit routes)
            × (answer ≡ (
                if any_path routes
                then error 405 (http_error (status_text 405) 405)
                else error 404 (http_error (status_text 404) 404))))
  unfolding serve_http
  serve_http_dispatches routes = elim (find-Finds false routes) [
    | inl (f, e) ↦ inl (f, ap (served find_submatch same_method H) e)
    | inr (u, e) ↦ inr (u, ap (served find_submatch same_method H) e ∙ refused (any_path routes))
  ]

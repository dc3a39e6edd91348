-- ===== src/Oembed/Known.antt =====
-- What holds of the table of providers.
use youtube_ar.Base.{
  String, List, [], ◌∷◌, Bool, true, false, ◌≡◌, ◌⊎◌, inl, inr, refl, sym, ◌∙◌, codes, none, some,
  Result, ok, err, GoError, if◌then◌else◌, Bool-cases, Option-cases, arith,
}
use youtube_ar.Oembed.{discover, find}
use youtube_ar.Oembed.Glob.{plain, Token, tokens_from, matches, match}
use youtube_ar.Oembed.Html.{Node}
use youtube_ar.Oembed.Load.{Provider}
use youtube_ar.Oembed.Providers.{known_providers}

-- A pattern that has tokens.
abbrev is_pattern : Provider → Bool
is_pattern p = elim (tokens_from plain (codes p.pattern)) [ none ↦ false | some _ ↦ true ]

abbrev all_patterns : List Provider → Bool
all_patterns [] = true
all_patterns (p ∷ ps) = elim (is_pattern p) [ true ↦ all_patterns ps | false ↦ false ]

known_patterns : all_patterns known_providers ≡ true
unfolding tokens_from known_providers
known_patterns = refl

module _ (fetch : String → Result String) (parse_html : String → Result Node)
    (with_query : (endpoint url : String) → String) where
  unfoldable found_by : (p : Provider) (url : String) → Bool → Result String → Result String
  found_by p url false next = next
  found_by p url true next =
      if p.endpoint.discovery
      then discover fetch parse_html with_query url
      else ok (with_query p.endpoint.url url)

  all_patterns-cons :
      (p : Provider) (ps : List Provider) (ts : List Token)
      → tokens_from plain (codes p.pattern) ≡ some ts
      → all_patterns (p ∷ ps) ≡ all_patterns ps
  all_patterns-cons p ps ts h = rw (all_patterns, h) refl

  all_patterns-bad :
      (p : Provider) (ps : List Provider)
      → tokens_from plain (codes p.pattern) ≡ none
      → all_patterns (p ∷ ps) ≡ false
  all_patterns-bad p ps h = rw (all_patterns, h) refl

  false≢true : ¬ (false ≡ true)
  false≢true e = ground (arith, e)

  found_by_err :
      (p : Provider) (url : String) (b : Bool) (next : Result String) (e : GoError)
      → found_by p url b next ≡ err e
      → (next ≡ err e) ⊎ (discover fetch parse_html with_query url ≡ err e)
  unfolding found_by
  found_by_err p url false next e h = inl h
  found_by_err p url true next e h = elim (Bool-cases p.endpoint.discovery) [
    | inl d ↦ inr (rw d at h)
    | inr d ↦ absurd (ground arith)
  ]

  find-cons :
      (p : Provider) (ps : List Provider) (url : String) (ts : List Token)
      → tokens_from plain (codes p.pattern) ≡ some ts
      → find fetch parse_html with_query (p ∷ ps) url
        ≡ found_by p url (matches ts (codes url)) (find fetch parse_html with_query ps url)
  unfolding find found_by match
  find-cons p ps url ts h = elim (Bool-cases (matches ts (codes url))) [
    | inl k ↦ rw (find, h) (rw k refl)
    | inr k ↦ rw (find, h) (rw k refl)
  ]

  find_errors :
      (ps : List Provider) (url : String) (e : GoError)
      → all_patterns ps ≡ true
      → find fetch parse_html with_query ps url ≡ err e
      → discover fetch parse_html with_query url ≡ err e
  unfolding find
  find_errors [] url e known h = h
  find_errors (p ∷ ps) url e known h = elim (Option-cases (tokens_from plain (codes p.pattern))) [
    | inl bad ↦ absurd (false≢true (sym (all_patterns-bad p ps bad) ∙ known))
    | inr (ts, well) ↦ elim (found_by_err p url _ _ e (sym (find-cons p ps url ts well) ∙ h)) [
      | inl k ↦ find_errors ps url e (sym (all_patterns-cons p ps ts well) ∙ known) k
      | inr k ↦ k
    ]
  ]

  -- With the table of providers, finding the address of a url's data fails only where the discovery on
  -- the url's page does, and with its error.
  pub find_known_errors :
      (url : String) (e : GoError)
      → find fetch parse_html with_query known_providers url ≡ err e
      → discover fetch parse_html with_query url ≡ err e
  find_known_errors url e = find_errors known_providers url e known_patterns

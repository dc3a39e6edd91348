-- ===== src/Log/Logfmt.antt =====
-- api/log/logfmt/logfmt.go: the text of an event.
use youtube_ar.Base.{
  ℕ, String, List, [], ◌∷◌, ◌++◌, map, Bool, true, false, ◌==◌, ltb, if◌then◌else◌, codes,
  contains_text, join,
}

-- A map from strings to strings, its keys distinct.
abbrev pub Event : Type 0
Event = List (String × String)

-- The order of sort.Strings, which is that of the code points.
abbrev pub less : List ℕ → List ℕ → Bool
less [] [] = false
less [] (c ∷ t) = true
less (c ∷ s) [] = false
less (c ∷ s) (d ∷ t) = if c == d then less s t else ltb c d

abbrev insert_key : String × String → Event → Event
insert_key entry [] = entry ∷ []
insert_key (k, v) ((j, w) ∷ event) =
    if less (codes j) (codes k) then (j, w) ∷ insert_key (k, v) event else (k, v) ∷ (j, w) ∷ event

abbrev pub sort_keys : Event → Event
sort_keys [] = []
sort_keys (entry ∷ event) = insert_key entry (sort_keys event)

unfoldable pub need_quote : List ℕ → Bool
unfolding contains_text
need_quote s = contains_text s (32 ∷ [])

-- `%q` of a text of printable ASCII: quotation marks and backslashes are escaped.
abbrev escape : List ℕ → List ℕ
escape [] = []
escape (c ∷ s) =
    if c == 34 then 92 ∷ 34 ∷ escape s else if c == 92 then 92 ∷ 92 ∷ escape s else c ∷ escape s

unfoldable pub quote : List ℕ → List ℕ
quote s = 34 ∷ (escape s ++ 34 ∷ [])

unfoldable pub format_field : String × String → List ℕ
unfolding need_quote quote
format_field (key, value) =
    codes key ++ 61 ∷ (if need_quote (codes value) then quote (codes value) else codes value)

unfoldable pub marshal : Event → List ℕ
unfolding format_field join
marshal event = join (32 ∷ []) (map format_field (sort_keys event))

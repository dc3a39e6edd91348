-- ===== src/Model.antt =====
-- api/model/model.go: the rows that the program keeps, and which failures are worth a retry.
-- Values of type int64 are numbers below 2 ^ 64 in two's complement; instants are numbers.
use youtube_ar.Base.{
  ℕ, String, List, [], ◌∷◌, Bool, true, false, ◌||◌, Option, none, some, str_eq, if◌then◌else◌, map,
  codes, after, join, lines,
}

-- sql.NullString and sql.NullInt64; the value of an invalid one is "" or 0.
pub record NullString : Type 0 where
  pub valid : Bool
  pub string : String

pub record NullInt64 : Type 0 where
  pub valid : Bool
  pub int64 : ℕ

abbrev pub no_string : NullString
no_string = record { valid = false; string = "" }

abbrev pub no_int64 : NullInt64
no_int64 = record { valid = false; int64 = 0 }

pub record Url : Type 0 where
  pub id : ℕ
  pub url : String
  pub created_at : ℕ
  pub updated_at : ℕ
  pub status : String
  pub error : NullString
  pub file : NullString
  pub retries : NullInt64
  pub logs : List String
  pub oembed : Option String

-- The zero value of the struct.
abbrev pub zero_url : Url
zero_url = record {
  id = 0;
  url = "";
  created_at = 0;
  updated_at = 0;
  status = "";
  error = no_string;
  file = no_string;
  retries = no_int64;
  logs = [];
  oembed = none;
}

abbrev pub url_columns : List String
url_columns =
    "id" ∷ "url" ∷ "created_at" ∷ "updated_at" ∷ "status" ∷ "error" ∷ "file" ∷ "retries" ∷ "logs"
    ∷ "oembed" ∷ []

-- A regular expression whose literal pieces are joined by `.*`. A dot matches no line feed.
abbrev pub Pieces : Type 0
Pieces = List (List ℕ)

-- The pieces occur in a line, one after another.
unfoldable pub in_order : Pieces → List ℕ → Bool
in_order [] s = true
in_order (piece ∷ more) s = elim (after piece s) [ none ↦ false | some rest ↦ in_order more rest ]

unfoldable pub any_line : Pieces → List (List ℕ) → Bool
any_line pieces [] = false
any_line pieces (line ∷ more) = in_order pieces line || any_line pieces more

-- regexp.MatchString
unfoldable pub match_string : Pieces → List ℕ → Bool
unfolding in_order any_line lines after
match_string pieces s = any_line pieces (lines s)

abbrev pub should_retry_regexps : List Pieces
should_retry_regexps =
    (codes "ERROR: Unable to download webpage: HTTP Error 429: Too Many Requests" ∷ [])
    ∷ (codes "ERROR: The uploader has not made this video available in your country." ∷ [])
    ∷ (codes "ERROR: "
        ∷ codes ": YouTube said: This video contains content from "
        ∷ codes ", who has blocked it on copyright grounds."
        ∷ [])
    ∷ []

unfoldable pub any_match : List Pieces → List ℕ → Bool
any_match [] log = false
any_match (re ∷ more) log = match_string re log || any_match more log

unfoldable pub should_retry : Url → Bool
unfolding any_match match_string join
should_retry u =
    if str_eq u.error.string "signal: killed"
    then true
    else if str_eq u.error.string "exit status 1"
    then any_match should_retry_regexps (join (10 ∷ []) (map codes u.logs))
    else false

pub record Log : Type 0 where
  pub log : String

pub record YoutubeVideo : Type 0 where
  pub id : ℕ
  pub youtube_id : String
  pub created_at : ℕ

abbrev pub youtube_video_columns : List String
youtube_video_columns = "id" ∷ "created_at" ∷ "youtube_id" ∷ []

pub record Page : Type 0 where
  pub limit : ℕ
  pub cursor : ℕ

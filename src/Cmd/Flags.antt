-- ===== src/Cmd/Flags.antt =====
-- The package flag of Go, as far as api/cmd.go uses it: string and int64 flags of a FlagSet that ends the
-- process on an error.
use Prim.Native.Char.{code}
use youtube_ar.Base.{
  ℕ, String, List, [], ◌∷◌, Option, none, some, Bool, true, false, str_eq, ◌==◌, ◌||◌,
  if◌then◌else◌,
}

pub data Kind : Type 0 where
  string_var int64_var : Kind

-- The flags of a set, by their names.
abbrev pub FlagSet : Type 0
FlagSet = List (String × Kind)

-- An argument, as parseOne takes it apart.
pub data Arg : Type 0 where
  no_flag terminator bad : Arg
  flag : String → Option String → Arg

abbrev pub is_dash : ℕ → Bool
is_dash c = c == 45

abbrev pub is_equals : ℕ → Bool
is_equals c = c == 61

-- The text before the first equals sign, and the text after it.
abbrev pub cut : String → String × Option String
cut String.[] = ("", none)
cut (String.◌∷◌ c s) =
    let (name, value) = cut s in
    if is_equals (code c) then ("", some s) else (String.◌∷◌ c name, value)

abbrev pub named : String → Arg
named String.[] = bad
named (String.◌∷◌ c s) =
    let (name, value) = cut s in
    if is_dash (code c) || is_equals (code c) then bad else flag (String.◌∷◌ c name) value

abbrev pub after_dash : String → Arg
after_dash String.[] = no_flag
after_dash (String.◌∷◌ c s) =
    if is_dash (code c)
    then (if str_eq s "" then terminator else named s)
    else named (String.◌∷◌ c s)

unfoldable pub classify : String → Arg
classify String.[] = no_flag
classify (String.◌∷◌ c s) = if is_dash (code c) then after_dash s else no_flag

abbrev pub kind_of : FlagSet → String → Option Kind
kind_of [] name = none
kind_of ((n, kind) ∷ flags) name = if str_eq n name then some kind else kind_of flags name

-- What the flags are set to, the first first.
abbrev pub Assigned : Type 0
Assigned = List (String × String)

-- The last value that a flag is set to, or its default.
unfoldable pub string_value : String → String → Assigned → String
string_value name missing [] = missing
string_value name missing ((n, value) ∷ more) =
    if str_eq n name then string_value name value more else string_value name missing more

-- `parse_int64` is strconv.ParseInt(s, 0, 64).
module _ (parse_int64 : String → Option ℕ) where
  -- `flag.Value.Set`: whether the flag takes the text.
  abbrev pub accepts : Option Kind → String → Bool
  accepts none value = false
  accepts (some string_var) value = true
  accepts (some int64_var) value = elim (parse_int64 value) [ none ↦ false | some _ ↦ true ]

  -- A flag that is set, and the rest; `none` is a process that ends.
  abbrev pub set : FlagSet → String → String → Option Assigned → Option Assigned
  set flags name value none = none
  set flags name value (some more) =
      if accepts (kind_of flags name) value then some ((name, value) ∷ more) else none

  -- An argument, with the one that follows it.
  abbrev pub parse_one :
      FlagSet → Arg → String → (rest after_next : Option Assigned) → Option Assigned
  parse_one flags no_flag next rest after_next = some []
  parse_one flags terminator next rest after_next = some []
  parse_one flags bad next rest after_next = none
  parse_one flags (flag name (some value)) next rest after_next = set flags name value rest
  parse_one flags (flag name none) next rest after_next = set flags name next after_next

  abbrev pub parse_last : FlagSet → Arg → Option Assigned
  parse_last flags no_flag = some []
  parse_last flags terminator = some []
  parse_last flags bad = none
  parse_last flags (flag name (some value)) = set flags name value (some [])
  parse_last flags (flag name none) = none

  unfoldable pub parse : FlagSet → List String → Option Assigned
  unfolding classify
  parse flags [] = some []
  parse flags (arg ∷ []) = parse_last flags (classify arg)
  parse flags (arg ∷ next ∷ args) =
      parse_one flags (classify arg) next (parse flags (next ∷ args)) (parse flags args)

  abbrev pub int_of : ℕ → String → ℕ
  int_of missing value = elim (parse_int64 value) [ none ↦ missing | some n ↦ n ]

  unfoldable pub int64_value : String → ℕ → Assigned → ℕ
  int64_value name missing [] = missing
  int64_value name missing ((n, value) ∷ more) =
      if str_eq n name
      then int64_value name (int_of missing value) more
      else int64_value name missing more

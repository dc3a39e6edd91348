-- ===== src/Redis/Logged.antt =====
-- api/broker/redis/redis.go: the client that logs every command. The package go-redis builds the
-- commands and runs them.
use youtube_ar.Base.{
  String, ◌<>◌, List, [], ◌∷◌, ◌++◌, Option, none, some, Result, ok, err, error_text, M,
}
use youtube_ar.Log.{Entry, string}
use youtube_ar.Redis.{Redis}
use youtube_ar.Event.Json.{itoa}

-- A redis.Cmder: its name, and the texts of its arguments, of which the name is the first.
pub record Command : Type 0 where
  pub name : String
  pub args : List String

-- strings.Join(ss, " ")
abbrev pub join_spaced : List String → String
join_spaced [] = ""
join_spaced (s ∷ []) = s
join_spaced (s ∷ t ∷ more) = s <> (" " <> join_spaced (t ∷ more))

abbrev error_suffix : {A : Type 0} → String → Result A → String
error_suffix s (ok _) = s
error_suffix s (err e) = s <> (": " <> error_text e)

unfoldable pub cmder_string : {A : Type 0} → Command → Result A → String
cmder_string c result = error_suffix (join_spaced c.args) result

-- `stringer` is the String method of a command that has been run, where its type has one; `duration` the
-- text of the time that it takes.
module _ (stringer : (A : Type 0) → Command → Result A → Option String)
    (duration : Command → String) (r : Redis) where
  abbrev message : {A : Type 0} → Command → Result A → Option String → String
  message c result (some s) = s
  message c result none = cmder_string c result

  abbrev pub command_entry : {A : Type 0} → Command → Result A → Entry
  command_entry {A} c result = record {
    msg = "redis: " <> message c result (stringer A c result);
    fields = string "command" c.name ∷ string "duration" (duration c) ∷ [];
  }

  -- A command, and the line that is logged after it.
  abbrev pub process : {A : Type 0} → Command → M r.State A → M (r.State × List Entry) A
  process c old (s, logged) =
      let (result, s') = old s in (result, (s', logged ++ command_entry c result ∷ []))

  abbrev command : String → List String → Command
  command name args = record { name = name; args = name ∷ args }

  abbrev pub logged_redis : Redis
  logged_redis = record {
    State = r.State × List Entry;
    lpush = λ k v. process (command "lpush" (k ∷ v ∷ [])) (r.lpush k v);
    brpoplpush = λ source destination.
        process (command "brpoplpush" (source ∷ destination ∷ "0" ∷ []))
          (r.brpoplpush source destination);
    lrem = λ k count v. process (command "lrem" (k ∷ itoa count ∷ v ∷ [])) (r.lrem k count v);
    rpop = λ k. process (command "rpop" (k ∷ [])) (r.rpop k);
  }

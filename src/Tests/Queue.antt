-- ===== src/Tests/Queue.antt =====
-- Queues over lists in memory: sequences of calls, the loop over a queue, and the client that logs.
use youtube_ar.Base.{
  String, List, [], ◌∷◌, Bool, false, none, ◌≡◌, refl, str_eq, if◌then◌else◌, Option, Result,
}
use youtube_ar.Redis.Memory.{memory, memory-RedisLists, memory-Answers}
use youtube_ar.Broker.{panicked, World, Handler, popped, tmp_of, receive}
use youtube_ar.Redis.Logged.{Command}
use youtube_ar.Broker.Lists.{listed}
use youtube_ar.Broker.Fifo.{Call, sends, receives}
use youtube_ar.Broker.Logged.{R, forget, receive-forget}
use youtube_ar.Worker.{listen}
use youtube_ar.Worker.Drain.{listen-drains}

abbrev sound : String → Bool
sound k = false

abbrev lists : String → List String
lists k = if str_eq k "q" then "b" ∷ "a" ∷ [] else []

abbrev world : World (memory sound) (Unit {0})
world = record { redis = lists; logged = []; rest = tt }

abbrev crashing : Handler (memory sound) (Unit {0})
crashing payload w = (panicked "crash", w)

abbrev calls : List Call
calls = receives popped "1s" ∷ sends "c" ∷ receives popped "1s" ∷ []

abbrev unseen_world : World (memory sound) (List String × Unit {0})
unseen_world = record { redis = lists; logged = []; rest = ([], tt) }

listen-drains_example :
    let L = memory-RedisLists sound in
    let (ended, w') =
      listen (memory sound) (Unit {0}) "q" crashing ((popped, "1s") ∷ (popped, "2s") ∷ []) world in
    (ended ≡ none)
    × (listed (memory sound) L (Unit {0}) w' "q" ≡ [])
    × (listed (memory sound) L (Unit {0}) w' (tmp_of "q")
        ≡ listed (memory sound) L (Unit {0}) world (tmp_of "q"))
unfolding memory-RedisLists
listen-drains_example =
    listen-drains (memory sound) (memory-RedisLists sound) (Unit {0}) crashing "q" (λ p w j. refl)
      ((λ k v s. refl), (λ k v s. refl)) (memory-Answers sound) ("1s" ∷ "2s" ∷ []) world refl

abbrev no_stringer : (A : Type 0) → Command → Result A → Option String
no_stringer A c result = none

abbrev quick : Command → String
quick c = "1ms"

abbrev logging : World (R no_stringer quick (memory sound) (Unit {0})) (Unit {0})
logging = record { redis = (lists, []); logged = []; rest = tt }

receive-forget_example :
    let (result, w') =
      receive
        (R no_stringer quick (memory sound) (Unit {0}))
        (Unit {0})
        popped
        "1s"
        "q"
        (λ payload w. (panicked "crash", w))
        logging in
    let (plain_result, plain_w') =
      receive
        (memory sound)
        (Unit {0})
        popped
        "1s"
        "q"
        crashing
        (forget no_stringer quick (memory sound) (Unit {0}) logging) in
    (result ≡ plain_result) × (forget no_stringer quick (memory sound) (Unit {0}) w' ≡ plain_w')
receive-forget_example =
    receive-forget no_stringer quick (memory sound) (Unit {0}) (λ payload w. (panicked "crash", w))
      crashing (λ payload w. (refl, refl)) popped "1s" "q" logging

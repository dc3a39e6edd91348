-- ===== src/Tests/Broker.antt =====
-- The broker over lists in memory.
use youtube_ar.Base.{
  String, List, [], ◌∷◌, ◌++◌, Bool, false, ok, canceled, ◌≡◌, refl, str_eq, arith, ◌≢◌,
  if◌then◌else◌,
}
use youtube_ar.Redis.Memory.{memory, memory-RedisLists}
use youtube_ar.Broker.{panicked, World, Handler, tmp_of, failed_of, popped, receive}
use youtube_ar.Broker.Lists.{listed, with_failure, arrived}
use youtube_ar.Broker.Delivery.{receive_delivers, receive_loses}
use youtube_ar.Broker.Race.{
  Race, here, next, Step, answer, cancel, started, abandoned, holding, abandoned_strands,
}

abbrev sound : String → Bool
sound k = false

abbrev unsound : String → Bool
unsound k = str_eq k "q:failed"

abbrev lists : String → List String
lists k = if str_eq k "q" then "b" ∷ "a" ∷ [] else []

abbrev crashing : (broken : String → Bool) → Handler (memory broken) (Unit {0})
crashing broken payload w = (panicked "crash", w)

abbrev world : (broken : String → Bool) → World (memory broken) (Unit {0})
world broken = record { redis = lists; logged = []; rest = tt }

receive_panic :
    let (result, w) =
      receive (memory sound) (Unit {0}) popped "1s" "q" (crashing sound) (world sound) in
    (result ≡ ok tt)
    × (w.redis "q" ≡ "b" ∷ [])
    × (w.redis "q:tmp" ≡ [])
    × (w.redis "q:failed" ≡ "a" ∷ [])
unfolding receive
receive_panic = (refl, refl, refl, refl)

abbrev after_panic : World (memory sound) (Unit {0})
after_panic = (receive (memory sound) (Unit {0}) popped "1s" "q" (crashing sound) (world sound)).1

receive_delivers_example :
    let (result, w') =
      receive (memory sound) (Unit {0}) popped "1s" "q" (crashing sound) (world sound) in
    let L = memory-RedisLists sound in
    (l : List String) × (listed (memory sound) L (Unit {0}) (world sound) "q" ≡ l ++ "a" ∷ [])
    × (result ≡ ok tt)
    × (listed (memory sound) L (Unit {0}) w' "q" ≡ l)
    × (listed (memory sound) L (Unit {0}) w' (tmp_of "q")
        ≡ listed (memory sound) L (Unit {0}) (world sound) (tmp_of "q"))
    × (listed (memory sound) L (Unit {0}) w' (failed_of "q")
        ≡ with_failure
            (crashing sound "a" (arrived (memory sound) L (Unit {0}) "q" (world sound))).0
            "a"
            (listed (memory sound) L (Unit {0}) (world sound) (failed_of "q")))
    × ((j : String)
        → str_eq j "q" ≡ false
        → str_eq j (tmp_of "q") ≡ false
        → str_eq j (failed_of "q") ≡ false
        → listed (memory sound) L (Unit {0}) w' j
          ≡ listed (memory sound) L (Unit {0}) (world sound) j)
receive_delivers_example =
    receive_delivers (memory sound) (memory-RedisLists sound) (Unit {0}) (crashing sound)
      (λ p w j. refl) ((λ k v s. refl), (λ k v s. refl)) "1s" "q" "a" (world sound) refl

lpush_unsound :
    (v : String) (s : String → List String) → ((memory unsound).lpush (failed_of "q") v s).0 ≢ ok tt
lpush_unsound v s h = ground arith

receive_loses_example :
    let (result, w') =
      receive (memory unsound) (Unit {0}) popped "1s" "q" (crashing unsound) (world unsound) in
    let L = memory-RedisLists unsound in
    (result ≡ ok tt)
    × (listed (memory unsound) L (Unit {0}) (world unsound) "q"
        ≡ listed (memory unsound) L (Unit {0}) w' "q" ++ "a" ∷ [])
    × (listed (memory unsound) L (Unit {0}) w' (tmp_of "q")
        ≡ listed (memory unsound) L (Unit {0}) (world unsound) (tmp_of "q"))
    × (listed (memory unsound) L (Unit {0}) w' (failed_of "q")
        ≡ listed (memory unsound) L (Unit {0}) (world unsound) (failed_of "q"))
    × ((j : String)
        → str_eq j "q" ≡ false
        → str_eq j (tmp_of "q") ≡ false
        → listed (memory unsound) L (Unit {0}) w' j
          ≡ listed (memory unsound) L (Unit {0}) (world unsound) j)
receive_loses_example =
    receive_loses (memory unsound) (memory-RedisLists unsound) (Unit {0}) (crashing unsound)
      (λ p w j. refl) "1s" "q" "a" (world unsound) refl lpush_unsound (λ k v s. refl)

abbrev race : Race (memory sound)
race = started (memory sound) lists

abbrev given_up : Race (memory sound)
given_up = record race { main = abandoned canceled }

abbrev stranded : Race (memory sound)
stranded = record given_up {
  redis = ((memory sound).brpoplpush "q" (tmp_of "q") lists).1;
  popper = holding (ok "a");
}

abandoned_strands_example :
    let L = memory-RedisLists sound in
    ((l : List String) × (L.list lists "q" ≡ l ++ "a" ∷ [])
      × (L.list stranded.redis "q" ≡ l)
      × (L.list stranded.redis (tmp_of "q") ≡ "a" ∷ L.list lists (tmp_of "q")))
    × ((t : Race (memory sound)) → ¬ Step (memory sound) "q" stranded t)
abandoned_strands_example =
    abandoned_strands (memory sound) (memory-RedisLists sound) "q" lists stranded canceled "a"
      (next (next here (cancel canceled refl refl)) (answer (ok "a") refl refl refl)) refl refl

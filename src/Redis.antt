-- ===== src/Redis.antt =====
-- api/broker/broker.go, interface Redis: the commands that the broker sends. The server and its
-- client are not part of the repository, so they are a parameter, `Redis`; `RedisLists` states their
-- documented behaviour on lists, whose left end is the head.
pub mod Memory
pub mod Logged
use youtube_ar.Base.{
  String, List, [], ◌∷◌, ◌++◌, ◌≡◌, str_eq, if◌then◌else◌, ok, err, GoError, M, ℕ,
}

pub record Redis : Type 1 where
  pub State : Type 0
  -- LPUSH key value
  pub lpush : String → String → M State (Unit {0})
  -- BRPOPLPUSH source destination 0, once it has been answered
  pub brpoplpush : String → String → M State String
  -- LREM key count value
  pub lrem : String → ℕ → String → M State (Unit {0})
  -- RPOP key
  pub rpop : String → M State String

-- A list without its first element that equals `v`.
abbrev pub erase : String → List String → List String
erase v [] = []
erase v (x ∷ l) = if str_eq x v then l else x ∷ erase v l

pub record RedisLists (r : Redis) : Type 0 where
  pub list : r.State → String → List String
  pub lpush_ok :
      (k v j : String) (s : r.State)
      → (r.lpush k v s).0 ≡ ok tt
      → list (r.lpush k v s).1 j ≡ (if str_eq j k then v ∷ list s j else list s j)
  pub lpush_err :
      (k v j : String) (s : r.State) (e : GoError)
      → (r.lpush k v s).0 ≡ err e
      → list (r.lpush k v s).1 j ≡ list s j
  pub brpoplpush_ok :
      (source destination v : String) (s : r.State)
      → (r.brpoplpush source destination s).0 ≡ ok v
      → (l : List String) × (list s source ≡ l ++ v ∷ [])
        × ((j : String)
            → list (r.brpoplpush source destination s).1 j ≡ (
                if str_eq j source
                then l
                else if str_eq j destination
                then v ∷ list s j
                else list s j))
  pub brpoplpush_err :
      (source destination j : String) (s : r.State) (e : GoError)
      → (r.brpoplpush source destination s).0 ≡ err e
      → list (r.brpoplpush source destination s).1 j ≡ list s j
  pub lrem_ok :
      (k v j : String) (s : r.State)
      → (r.lrem k 1 v s).0 ≡ ok tt
      → list (r.lrem k 1 v s).1 j ≡ (if str_eq j k then erase v (list s j) else list s j)
  pub lrem_err :
      (k v j : String) (s : r.State) (e : GoError)
      → (r.lrem k 1 v s).0 ≡ err e
      → list (r.lrem k 1 v s).1 j ≡ list s j
  pub rpop_ok :
      (k v : String) (s : r.State)
      → (r.rpop k s).0 ≡ ok v
      → (l : List String) × (list s k ≡ l ++ v ∷ [])
        × ((j : String) → list (r.rpop k s).1 j ≡ (if str_eq j k then l else list s j))
  pub rpop_err :
      (k j : String) (s : r.State) (e : GoError)
      → (r.rpop k s).0 ≡ err e
      → list (r.rpop k s).1 j ≡ list s j

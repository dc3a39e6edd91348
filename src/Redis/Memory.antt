-- ===== src/Redis/Memory.antt =====
-- Lists in memory, which meet the assumptions on Redis.
use youtube_ar.Base.{
  String, List, [], ◌∷◌, ◌++◌, Option, none, some, ok, err, GoError, redis_nil, failed, ◌≡◌, refl,
  arith, str_eq, if◌then◌else◌, Result, ap, Bool, Option-cases, inl, inr, ◌≢◌,
}
use youtube_ar.Redis.{Redis, RedisLists, erase}

abbrev Lists : Type 0
Lists = String → List String

-- A list without its last element, and that element.
abbrev pub split_last : List String → Option (List String × String)
split_last [] = none
split_last (x ∷ l) = elim (split_last l) [ none ↦ some ([], x) | some (l', y) ↦ some (x ∷ l', y) ]

abbrev popped :
    Option (List String × String) → Lists → (List String → String → Lists) → Result String × Lists
popped none s k = (err redis_nil, s)
popped (some (l, v)) s k = (ok v, k l v)

-- `broken` names the keys on which LPUSH fails.
abbrev pub memory : (broken : String → Bool) → Redis
memory broken = record {
  State = Lists;
  lpush = λ k v s.
      if broken k
      then (err (failed "OOM"), s)
      else (ok tt, λ j. if str_eq j k then v ∷ s j else s j);
  brpoplpush = λ source destination s.
      popped (split_last (s source)) s
        (λ l v j. if str_eq j source then l else if str_eq j destination then v ∷ s j else s j);
  lrem = λ k _ v s. (ok tt, λ j. if str_eq j k then erase v (s j) else s j);
  rpop = λ k s. popped (split_last (s k)) s (λ l v j. if str_eq j k then l else s j);
}

pub split_last_lem :
    (l : List String) (l' : List String) (v : String)
    → split_last l ≡ some (l', v)
    → l ≡ l' ++ v ∷ []
split_last_lem [] l' v h = cc
split_last_lem (x ∷ l) l' v h = elim (Option-cases (split_last l)) [
  | inl e ↦ ground arith
  | inr ((m, y), e) ↦ ground (arith, split_last_lem l m y e)
]

pub popped_ok :
    (o : Option (List String × String)) (s : Lists) (k : List String → String → Lists) (v : String)
    → (popped o s k).0 ≡ ok v
    → (l : List String) × (o ≡ some (l, v)) × ((popped o s k).1 ≡ k l v)
popped_ok none s k v h = cc
popped_ok (some (l, u)) s k v h = (l, ground arith, ground arith)

pub popped_err :
    (o : Option (List String × String)) (s : Lists) (k : List String → String → Lists) (e : GoError)
    → (popped o s k).0 ≡ err e
    → (popped o s k).1 ≡ s
popped_err none s k e h = refl
popped_err (some _) s k e h = cc

unfoldable pub memory-RedisLists : (broken : String → Bool) → RedisLists (memory broken)
memory-RedisLists broken = record {
  list = λ s. s;
  lpush_ok = λ k v j s h. ground arith;
  lpush_err = λ k v j s e h. ground arith;
  brpoplpush_ok = λ source destination v s h.
      let (l, e, p) = popped_ok (split_last (s source)) s _ v h in
      (l, split_last_lem (s source) l v e, λ j. ap (λ f. f j) p);
  brpoplpush_err = λ source destination j s e h. ap (λ f. f j) (popped_err _ s _ e h);
  lrem_ok = λ k v j s h. refl;
  lrem_err = λ k v j s e h. cc;
  rpop_ok = λ k v s h.
      let (l, e, p) = popped_ok (split_last (s k)) s _ v h in
      (l, split_last_lem (s k) l v e, λ j. ap (λ f. f j) p);
  rpop_err = λ k j s e h. ap (λ f. f j) (popped_err _ s _ e h);
}

split_last_nonempty :
    (l : List String) → l ≢ [] → (l' : List String) × (v : String) × (split_last l ≡ some (l', v))
split_last_nonempty [] h = absurd (h refl)
split_last_nonempty (x ∷ l) h = elim (Option-cases (split_last l)) [
  | inl e ↦ ([], x, rw e refl)
  | inr ((m, y), e) ↦ (x ∷ m, y, rw e refl)
]

-- BRPOPLPUSH answers where its source has an element.
pub memory-Answers :
    (broken : String → Bool) (source destination : String) (s : Lists)
    → s source ≢ []
    → (v : String) × (((memory broken).brpoplpush source destination s).0 ≡ ok v)
memory-Answers broken source destination s h =
    let (l, v, e) = split_last_nonempty (s source) h in (v, rw e refl)

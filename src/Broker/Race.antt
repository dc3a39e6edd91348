-- ===== src/Broker/Race.antt =====
-- The `select` of `Receive`: the goroutine that waits for BRPOPLPUSH, the unbuffered channel `c`, and
-- the cancellation of the context, as the steps that can be interleaved.
use youtube_ar.Base.{
  String, List, [], ◌∷◌, ◌++◌, Option, none, some, Result, ok, err, GoError, redis_nil, ◌≡◌, refl,
  sym, ap, ◌∙◌, str_eq_refl,
}
use youtube_ar.Redis.{Redis, RedisLists}
use youtube_ar.Broker.{tmp_of}
use youtube_ar.Broker.Lists.{tmp-ne-queue}

-- `Receive`: it waits in the select, has returned the context's error, has returned what it returns for
-- an error of BRPOPLPUSH, or runs the handler.
pub data Main : Type 0 where
  selecting : Main
  abandoned : GoError → Main
  unpopped : Option GoError → Main
  handling : String → Main

-- The goroutine: the command is not answered, its answer waits for the channel, or it has ended.
pub data Popper : Type 0 where
  blocked : Popper
  holding : Result String → Popper
  finished : Popper

-- `if err == redis.Nil`: nil, or the error.
abbrev unpopped_error : GoError → Option GoError
unpopped_error redis_nil = none
unpopped_error e = some e

module _ (r : Redis) where
  pub record Race : Type 0 where
    pub redis : r.State
    pub main : Main
    pub popper : Popper

  pub data Step (queue : String) (s : Race) (t : Race) : Type 0 where
    answer :
        (res : Result String)
        → s.popper ≡ blocked
        → (r.brpoplpush queue (tmp_of queue) s.redis).0 ≡ res
        → t
          ≡ record s { redis = (r.brpoplpush queue (tmp_of queue) s.redis).1; popper = holding res }
        → Step queue s t
    hand_over :
        (payload : String)
        → s.main ≡ selecting
        → s.popper ≡ holding (ok payload)
        → t ≡ record s { main = handling payload; popper = finished }
        → Step queue s t
    hand_over_error :
        (e : GoError)
        → s.main ≡ selecting
        → s.popper ≡ holding (err e)
        → t ≡ record s { main = unpopped (unpopped_error e); popper = finished }
        → Step queue s t
    cancel :
        (e : GoError) → s.main ≡ selecting → t ≡ record s { main = abandoned e } → Step queue s t

  pub data Reach (queue : String) (s : Race) : Race → Type 0 where
    here : Reach queue s s
    next : {t u : Race} → Reach queue s t → Step queue t u → Reach queue s u

  abbrev pub started : r.State → Race
  started redis = record { redis = redis; main = selecting; popper = blocked }

module _ (r : Redis) (L : RedisLists r) (queue : String) (redis : r.State) where
  -- What a payload that the goroutine holds has done to the lists.
  abbrev Moved : String → r.State → Type 0
  Moved payload s =
      (l : List String) × (L.list redis queue ≡ l ++ payload ∷ [])
      × (L.list s queue ≡ l)
      × (L.list s (tmp_of queue) ≡ payload ∷ L.list redis (tmp_of queue))

  abbrev Inv : Popper → r.State → Type 0
  Inv blocked s = (j : String) → L.list s j ≡ L.list redis j
  Inv (holding (ok payload)) s = Moved payload s
  Inv (holding (err e)) s = (j : String) → L.list s j ≡ L.list redis j
  Inv finished s = Unit

  moved_lem :
      (payload : String) (s : r.State)
      → Inv blocked s
      → (r.brpoplpush queue (tmp_of queue) s).0 ≡ ok payload
      → Moved payload (r.brpoplpush queue (tmp_of queue) s).1
  moved_lem payload s same h =
      let (l, before, moved) = L.brpoplpush_ok queue (tmp_of queue) payload s h in
      (
        l,
        sym (same queue) ∙ before,
        moved queue ∙ rw str_eq_refl,
        moved (tmp_of queue)
            ∙ (rw (tmp-ne-queue, str_eq_refl))
            ∙ ap (λ k. payload ∷ k) (same (tmp_of queue)),
      )

  answer_lem :
      (res : Result String) (s : r.State)
      → Inv blocked s
      → (r.brpoplpush queue (tmp_of queue) s).0 ≡ res
      → Inv (holding res) (r.brpoplpush queue (tmp_of queue) s).1
  answer_lem (ok payload) s same h = moved_lem payload s same h
  answer_lem (err e) s same h = λ j. L.brpoplpush_err queue (tmp_of queue) j s e h ∙ same j

  Step-Inv : (s t : Race r) → Step r queue s t → Inv s.popper s.redis → Inv t.popper t.redis
  Step-Inv s t (answer res e h e') inv = rw e' (answer_lem res s.redis (rw e at inv) h)
  Step-Inv s t (hand_over payload m e e') inv = rw e' tt
  Step-Inv s t (hand_over_error e m h e') inv = rw e' tt
  Step-Inv s t (cancel e m e') inv = rw e' inv

  Reach-Inv : {s : Race r} → Reach r queue (started r redis) s → Inv s.popper s.redis
  Reach-Inv here = λ j. refl
  Reach-Inv (next path step) = Step-Inv _ _ step (Reach-Inv path)

  -- In every state that can be reached in which `Receive` has returned an error of its context and the
  -- goroutine holds a payload, the payload stands in `:tmp` and no longer in its queue, and no step is
  -- left to take: no handler gets the payload, and the goroutine never ends.
  pub abandoned_strands :
      (s : Race r) (e : GoError) (payload : String)
      → Reach r queue (started r redis) s
      → s.main ≡ abandoned e
      → s.popper ≡ holding (ok payload)
      → ((l : List String) × (L.list redis queue ≡ l ++ payload ∷ [])
          × (L.list s.redis queue ≡ l)
          × (L.list s.redis (tmp_of queue) ≡ payload ∷ L.list redis (tmp_of queue)))
        × ((t : Race r) → ¬ Step r queue s t)
  abandoned_strands s e payload path at_main at_popper = (rw at_popper at (Reach-Inv path), stuck)
    where
      stuck : (t : Race r) → Step r queue s t → ⊥
      stuck t (answer p b _ _) = cc
      stuck t (hand_over p m _ _) = cc
      stuck t (hand_over_error f m _ _) = cc
      stuck t (cancel f m _) = cc

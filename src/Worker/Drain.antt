-- ===== src/Worker/Drain.antt =====
-- The loop of `Listen` gets through a queue.
use youtube_ar.Base.{
  ℕ, suc, String, List, [], ◌∷◌, ◌++◌, map, none, Result, ok, err, ◌≡◌, ◌≢◌, refl, ap, ◌∙◌, arith,
  length, length-append, Option, GoError,
}
use youtube_ar.Redis.{Redis, RedisLists}
use youtube_ar.Broker.{Selected, popped, tmp_of, World, Handler, receive}
use youtube_ar.Broker.Lists.{listed, KeepsLists, Reliable}
use youtube_ar.Broker.Delivery.{receive_delivers}
use youtube_ar.Worker.{continued, listen}

module _ (r : Redis) (L : RedisLists r) where
  -- BRPOPLPUSH answers with a payload where its source is not empty.
  abbrev pub Answers : Type 0
  Answers =
      (source destination : String) (s : r.State)
      → L.list s source ≢ []
      → (v : String) × ((r.brpoplpush source destination s).0 ≡ ok v)

  module _ (D : Type 0) (handler : Handler r D) (queue : String) (keeps : KeepsLists r L D handler)
      (reliable : Reliable r L D) (answers : Answers) where
    -- A round of the loop in which the select takes the answer.
    abbrev pub popping : String → Selected × String
    popping duration = (popped, duration)

    nonempty : (l : List String) (n : ℕ) → length l ≡ suc n → l ≢ []
    nonempty l n h e = omega (arith, h, ap (length {0}) e)

    length_before :
        (l : List String) (v : String) (k : List String) (n : ℕ)
        → k ≡ l ++ v ∷ []
        → length k ≡ suc n
        → length l ≡ n
    length_before l v k n e h = omega (arith, h, ap (length {0}) e, length-append l (v ∷ []))

    no_length : (l : List String) → length l ≡ 0 → l ≡ []
    no_length [] h = refl
    no_length (x ∷ l) h = absurd (omega (arith, h))

    continued_ok :
        (x : Result (Unit {0}) × World r D) (more : World r D → Option GoError × World r D)
        → x.0 ≡ ok tt
        → continued r D queue handler x more ≡ more x.1
    continued_ok (ok _, w) more h = refl
    continued_ok (err e, w) more h = cc

    listen-popping :
        (duration : String) (rounds : List (Selected × String)) (w : World r D)
        → (receive r D popped duration queue handler w).0 ≡ ok tt
        → listen r D queue handler (popping duration ∷ rounds) w
          ≡ listen r D queue handler rounds (receive r D popped duration queue handler w).1
    unfolding listen
    listen-popping duration rounds w h =
        continued_ok (receive r D popped duration queue handler w) _ h

    -- With commands that do not fail, and a BRPOPLPUSH that answers where the queue is not empty, the
    -- loop over a queue of n payloads is still running after n rounds and the queue is empty, whatever
    -- the handler does with each payload: it may fail or panic. The list `:tmp` is as before. Nothing
    -- is sent meanwhile, and the handler leaves the lists alone.
    pub listen-drains :
        (durations : List String) (w : World r D)
        → length (listed r L D w queue) ≡ length durations
        → let (ended, w') = listen r D queue handler (map popping durations) w in
          (ended ≡ none)
          × (listed r L D w' queue ≡ [])
          × (listed r L D w' (tmp_of queue) ≡ listed r L D w (tmp_of queue))
    unfolding listen
    listen-drains [] w h = (refl, no_length _ h, refl)
    listen-drains (duration ∷ durations) w h =
        let (v, answer) = answers queue (tmp_of queue) w.redis (nonempty _ _ h) in
        let (l, before, returns, after, tmp, _, _) =
          receive_delivers r L D handler keeps reliable duration queue v w answer in
        let w' = (receive r D popped duration queue handler w).1 in
        let (running, empty, same) =
          listen-drains durations w' (ap length after ∙ length_before l v _ _ before h) in
        rw (listen-popping duration (map popping durations) w returns) (running, empty, same ∙ tmp)

-- ===== src/Broker/Logged.antt =====
-- The broker over the client that logs its commands: the log changes nothing else.
use youtube_ar.Base.{
  String, List, Option, none, some, Result, ok, err, GoError, redis_nil, no_rows, canceled,
  deadline_exceeded, failed, Result-cases, inl, inr, ◌≡◌, refl, ap, ◌∙◌, arith,
}
use youtube_ar.Log.{Field}
use youtube_ar.Redis.{Redis}
use youtube_ar.Redis.Logged.{Command, logged_redis}
use youtube_ar.Broker.{
  World, Handler, Selected, ctx_done, popped, tmp_of, failed_of, handler_error, outcome_fields,
  record_outcome, remove_tmp, handle, received, receive,
}

module _ (stringer : (A : Type 0) → Command → Result A → Option String)
    (duration : Command → String) (r : Redis) (D : Type 0) where
  abbrev pub R : Redis
  R = logged_redis stringer duration r

  -- A state without the lines that the client logs.
  abbrev pub forget : World R D → World r D
  forget w = record { redis = w.redis.0; logged = w.logged; rest = w.rest }

  record_outcome-forget :
      (queue payload : String) (fields : List Field) (e : Option GoError) (w : World R D)
      → forget (record_outcome R D queue payload fields e w)
        ≡ record_outcome r D queue payload fields e (forget w)
  unfolding record_outcome
  record_outcome-forget queue payload fields none w = refl
  record_outcome-forget queue payload fields (some e) w =
      elim (Result-cases (r.lpush (failed_of queue) payload w.redis.0).0) [
        | inl (_, ran) ↦ ground (arith, ran)
        | inr (x, ran) ↦ ground (arith, ran)
      ]

  remove_tmp-forget :
      (queue payload : String) (w : World R D)
      → forget (remove_tmp R D queue payload w) ≡ remove_tmp r D queue payload (forget w)
  unfolding remove_tmp
  remove_tmp-forget queue payload w =
      elim (Result-cases (r.lrem (tmp_of queue) 1 payload w.redis.0).0) [
        | inl (_, ran) ↦ ground (arith, ran)
        | inr (x, ran) ↦ ground (arith, ran)
      ]

  -- A handler over the logged client does what one over the client does, but for the lines.
  abbrev pub Follows : Handler R D → Handler r D → Type 0
  Follows handler plain =
      (payload : String) (w : World R D)
      → ((handler payload w).0 ≡ (plain payload (forget w)).0)
        × (forget (handler payload w).1 ≡ (plain payload (forget w)).1)

  module _ (handler : Handler R D) (plain : Handler r D) (follows : Follows handler plain) where
    handle-forget :
        (duration' queue payload : String) (w : World R D)
        → forget (handle R D duration' queue handler payload w)
          ≡ handle r D duration' queue plain payload (forget w)
    unfolding handle
    handle-forget duration' queue payload w =
        let (same, after) = follows payload w in
        let fields = outcome_fields duration' queue payload in
        let out = (handler payload w).0 in
        let w' = (handler payload w).1 in
        remove_tmp-forget queue payload
          (record_outcome R D queue payload fields (handler_error out) w')
        ∙ ap (remove_tmp r D queue payload) (
            record_outcome-forget queue payload fields (handler_error out) w'
            ∙ ap (λ o. record_outcome r D queue payload fields (handler_error o) (forget w')) same
            ∙ ap
                (record_outcome r D queue payload fields
                  (handler_error (plain payload (forget w)).0))
                after)

    abbrev Same : Result (Unit {0}) × World R D → Result (Unit {0}) × World r D → Type 0
    Same x y = (x.0 ≡ y.0) × (forget x.1 ≡ y.1)

    received-forget :
        (duration' queue : String) (a : Result String) (w : World R D)
        → Same
            (received R D duration' queue handler (a, w))
            (received r D duration' queue plain (a, forget w))
    received-forget duration' queue (ok payload) w = (refl, handle-forget duration' queue payload w)
    received-forget duration' queue (err redis_nil) w = (refl, refl)
    received-forget duration' queue (err no_rows) w = (refl, refl)
    received-forget duration' queue (err canceled) w = (refl, refl)
    received-forget duration' queue (err deadline_exceeded) w = (refl, refl)
    received-forget duration' queue (err (failed text)) w = (refl, refl)

    -- Over the client that logs its commands, Receive returns what it returns over the client that it
    -- wraps, and leaves the same state but for the lines that are logged: for every select, whatever
    -- the commands answer, and for handlers that correspond in this way.
    pub receive-forget :
        (selected : Selected) (duration' queue : String) (w : World R D)
        → let (result, w') = receive R D selected duration' queue handler w in
          let (plain_result, plain_w') = receive r D selected duration' queue plain (forget w) in
          (result ≡ plain_result) × (forget w' ≡ plain_w')
    unfolding receive
    receive-forget (ctx_done e) duration' queue w = (refl, refl)
    receive-forget popped duration' queue w = received-forget duration' queue _ _

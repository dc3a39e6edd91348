-- ===== src/Broker.antt =====
-- api/broker/broker.go: queues of payloads over Redis lists. A payload of `queue` that is being
-- handled stands in the list `queue:tmp`, one whose handler failed in `queue:failed`.
pub mod Lists
pub mod Delivery
pub mod Race
pub mod Rest
pub mod Fifo
pub mod Logged
use youtube_ar.Base.{
  String, ◌<>◌, List, [], ◌∷◌, ◌++◌, Option, none, some, Result, ok, err, GoError, redis_nil,
  failed, error_text, M,
}
use youtube_ar.Log.{Field, Entry, string}
use youtube_ar.Redis.{Redis}

abbrev pub tmp_of : String → String
tmp_of queue = queue <> ":tmp"

abbrev pub failed_of : String → String
failed_of queue = queue <> ":failed"

-- What a handler does: it returns an error or nil, or it panics.
pub data Outcome : Type 0 where
  returned : Option GoError → Outcome
  panicked : String → Outcome

-- `herr` in the deferred function: what the handler returned, or the text of a recovered panic.
unfoldable pub handler_error : Outcome → Option GoError
handler_error (returned e) = e
handler_error (panicked text) = some (failed text)

-- Which case of the `select` is taken.
pub data Selected : Type 0 where
  ctx_done : GoError → Selected
  popped : Selected

abbrev pub outcome_fields : String → String → String → List Field
outcome_fields duration queue payload =
    string "queue" queue ∷ string "payload" payload ∷ string "duration" duration ∷ []

module _ (r : Redis) (D : Type 0) where
  -- The state of Redis, what has been logged, latest last, and the rest that a handler works on.
  pub record World : Type 0 where
    pub redis : r.State
    pub logged : List Entry
    pub rest : D

  abbrev pub Handler : Type 0
  Handler = String → World → Outcome × World

  -- A command, run on the Redis part of the state.
  abbrev pub on_redis : {A : Type 0} → M r.State A → M World A
  on_redis m w = let (a, s) = m w.redis in (a, record w { redis = s })

  abbrev pub log_entry : Entry → World → World
  log_entry e w = record w { logged = w.logged ++ e ∷ [] }

  unfoldable pub send : String → String → M World (Unit {0})
  send queue payload = on_redis (r.lpush queue payload)

  -- `if err := …; err != nil { b.log.Log(ctx, err.Error()) }`
  abbrev log_error : Result (Unit {0}) × World → World
  log_error (ok _, w) = w
  log_error (err e, w) = log_entry (record { msg = error_text e; fields = [] }) w

  -- The second deferred function, which runs first: it logs the outcome and keeps a failed payload.
  unfoldable pub record_outcome : String → String → List Field → Option GoError → World → World
  unfolding send
  record_outcome queue payload fields none w =
      log_entry (record { msg = queue <> ": " <> payload; fields = fields }) w
  record_outcome queue payload fields (some e) w = log_error (
      send (failed_of queue) payload (log_entry (record { msg = error_text e; fields = fields }) w))

  -- The first deferred function, which runs last.
  unfoldable pub remove_tmp : String → String → World → World
  remove_tmp queue payload w = log_error (on_redis (r.lrem (tmp_of queue) 1 payload) w)

  -- A payload from its arrival to the return of `Receive`. `duration` is the text of the time that
  -- the handler took.
  unfoldable pub handle : String → String → Handler → String → World → World
  unfolding record_outcome remove_tmp handler_error
  handle duration queue handler payload w =
      let (out, w') = handler payload w in
      remove_tmp queue payload (
        record_outcome queue payload (outcome_fields duration queue payload) (handler_error out) w')

  abbrev pub received :
      String → String → Handler → Result String × World → Result (Unit {0}) × World
  received duration queue handler (ok payload, w) = (ok tt, handle duration queue handler payload w)
  received duration queue handler (err redis_nil, w) = (ok tt, w)
  received duration queue handler (err e, w) = (err e, w)

  unfoldable pub receive : Selected → String → String → Handler → M World (Unit {0})
  unfolding handle
  receive (ctx_done e) duration queue handler w = (err e, w)
  receive popped duration queue handler w =
      received duration queue handler (on_redis (r.brpoplpush queue (tmp_of queue)) w)

  unfoldable pub pop_next_failed : String → M World String
  pop_next_failed queue = on_redis (r.rpop (failed_of queue))

  unfoldable pub rem_failed : String → String → M World (Unit {0})
  rem_failed queue payload = on_redis (r.lrem (failed_of queue) 1 payload)

-- ===== src/Broker/Fifo.antt =====
-- A queue of the broker as a first-in, first-out queue: `Send` adds at its end, `Receive` takes from
-- its front.
use mathlib.Core.List.{reverse}
use youtube_ar.Base.{String, List, [], ◌∷◌, ◌++◌}
use youtube_ar.Redis.{Redis, RedisLists}
use youtube_ar.Broker.{Selected, World, Handler, send, receive}
use youtube_ar.Broker.Lists.{listed, KeepsLists, Reliable}

-- A call on one queue: Send, or Receive with what its select takes and how long its handler runs.
pub data Call : Type 0 where
  sends : String → Call
  receives : Selected → (duration : String) → Call

-- The payloads of the calls of Send.
unfoldable pub sent : List Call → List String
sent [] = []
sent (sends payload ∷ calls) = payload ∷ sent calls
sent (receives selected duration ∷ calls) = sent calls

module _ (r : Redis) (D : Type 0) (handler : Handler r D) where
  -- A state with the payloads that the handler has been called with, the first first.
  abbrev pub Seen : Type 0
  Seen = World r (List String × D)

  abbrev seen_by : World r D → List String → Seen
  seen_by w payloads = record { redis = w.redis; logged = w.logged; rest = (payloads, w.rest) }

  abbrev unseen : Seen → World r D
  unseen w = record { redis = w.redis; logged = w.logged; rest = w.rest.1 }

  -- The handler, which notes what it is called with.
  abbrev pub noting : Handler r (List String × D)
  noting payload w =
      let (out, w') = handler payload (unseen w) in (out, seen_by w' (w.rest.0 ++ payload ∷ []))

module _ (r : Redis) (D : Type 0) (handler : Handler r D) (queue : String) where
  unfoldable pub run : List Call → Seen r D handler → Seen r D handler
  unfolding send receive
  run [] w = w
  run (sends payload ∷ calls) w = run calls (send r (List String × D) queue payload w).1
  run (receives selected duration ∷ calls) w =
      run calls (receive r (List String × D) selected duration queue (noting r D handler) w).1

  -- The payloads that the handler has been called with, in their order.
  abbrev pub handled : Seen r D handler → List String
  handled w = w.rest.0

  module _ (L : RedisLists r) (keeps : KeepsLists r L D handler)
      (reliable : Reliable r L (List String × D)) where
    abbrev P : Type 0
    P = List String × D

    -- The queue, the next payload first.
    abbrev pub waiting : Seen r D handler → List String
    waiting w = reverse (listed r L P w queue)

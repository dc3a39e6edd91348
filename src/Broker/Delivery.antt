-- ===== src/Broker/Delivery.antt =====
-- Where a payload is after `Receive`, with commands that succeed and with commands that fail.
use youtube_ar.Base.{String, List, [], ◌∷◌, ◌++◌, ok, ◌≡◌, ◌≢◌, refl, ◌∙◌, ap, str_eq, false, sym}
use youtube_ar.Redis.{Redis, RedisLists}
use youtube_ar.Broker.{tmp_of, failed_of, popped, World, Handler, receive}
use youtube_ar.Broker.Lists.{
  listed, KeepsLists, Reliable, with_failure, arrived, received_state, handle-other, handle-tmp,
  handle-failed, tmp-ne-queue, failed-ne-queue, failed-ne-tmp, queue-ne-tmp, queue-ne-failed,
  handle-unsent,
}
use youtube_ar.Base.{str_eq_refl}

module _ (r : Redis) (L : RedisLists r) (D : Type 0) (handler : Handler r D)
    (keeps : KeepsLists r L D handler) (reliable : Reliable r L D) where
  -- Where BRPOPLPUSH answers with a payload and no command fails, `Receive` takes the payload off
  -- the right end of its queue and returns nil, whatever the handler does. The list `:tmp` is as
  -- before, the list `:failed` has the payload at its left end exactly if the handler returned an
  -- error or panicked, and every other list is as before. The handler is one that leaves the lists
  -- alone.
  pub receive_delivers :
      (duration queue payload : String) (w : World r D)
      → (r.brpoplpush queue (tmp_of queue) w.redis).0 ≡ ok payload
      → let (result, w') = receive r D popped duration queue handler w in
        (l : List String) × (listed r L D w queue ≡ l ++ payload ∷ [])
        × (result ≡ ok tt)
        × (listed r L D w' queue ≡ l)
        × (listed r L D w' (tmp_of queue) ≡ listed r L D w (tmp_of queue))
        × (listed r L D w' (failed_of queue)
            ≡ with_failure
                (handler payload (arrived r L D queue w)).0
                payload
                (listed r L D w (failed_of queue)))
        × ((j : String)
            → str_eq j queue ≡ false
            → str_eq j (tmp_of queue) ≡ false
            → str_eq j (failed_of queue) ≡ false
            → listed r L D w' j ≡ listed r L D w j)
  receive_delivers duration queue payload w h =
      let (l, before, moved) = L.brpoplpush_ok queue (tmp_of queue) payload w.redis h in
      let w1 = arrived r L D queue w in
      let at_failed = handle-failed r L D reliable handler keeps duration queue payload w1 in
      let at_other = handle-other r L D reliable handler keeps duration queue payload w1 in
      let at_tmp = handle-tmp r L D reliable handler keeps duration queue payload w1 in
      rw (received_state r L D queue handler keeps duration queue payload w h) (
        l,
        before,
        refl,
        at_other queue (queue-ne-tmp queue) (queue-ne-failed queue) ∙ moved queue ∙ rw str_eq_refl,
        at_tmp _ (moved (tmp_of queue) ∙ rw (tmp-ne-queue, str_eq_refl)),
        at_failed
            ∙ ap (with_failure _ payload)
                (moved (failed_of queue) ∙ rw (failed-ne-queue, failed-ne-tmp)),
        λ j a b c. at_other j b c ∙ moved j ∙ rw (a, b),
      )

module _ (r : Redis) (L : RedisLists r) (D : Type 0) (handler : Handler r D)
    (keeps : KeepsLists r L D handler) where
  -- Where LPUSH fails on the list `:failed` and LREM succeeds, a payload that `Receive` takes is
  -- afterwards in no list that it was not in before, also if its handler failed: the queue has lost
  -- it, `:tmp`, `:failed` and every other list are as before, and `Receive` returns nil.
  pub receive_loses :
      (duration queue payload : String) (w : World r D)
      → (r.brpoplpush queue (tmp_of queue) w.redis).0 ≡ ok payload
      → ((v : String) (s : r.State) → (r.lpush (failed_of queue) v s).0 ≢ ok tt)
      → ((k v : String) (s : r.State) → (r.lrem k 1 v s).0 ≡ ok tt)
      → let (result, w') = receive r D popped duration queue handler w in
        (result ≡ ok tt)
        × (listed r L D w queue ≡ listed r L D w' queue ++ payload ∷ [])
        × (listed r L D w' (tmp_of queue) ≡ listed r L D w (tmp_of queue))
        × (listed r L D w' (failed_of queue) ≡ listed r L D w (failed_of queue))
        × ((j : String)
            → str_eq j queue ≡ false
            → str_eq j (tmp_of queue) ≡ false
            → listed r L D w' j ≡ listed r L D w j)
  receive_loses duration queue payload w h unsent removed =
      let (l, before, moved) = L.brpoplpush_ok queue (tmp_of queue) payload w.redis h in
      let w1 = arrived r L D queue w in
      let (at_tmp, at_other) =
        handle-unsent r L D queue handler keeps duration payload w1 (listed r L D w (tmp_of queue))
          unsent removed (moved (tmp_of queue) ∙ rw (tmp-ne-queue, str_eq_refl)) in
      rw (received_state r L D queue handler keeps duration queue payload w h) (
        refl,
        before
            ∙ ap (λ k. k ++ payload ∷ [])
                (sym (at_other queue (queue-ne-tmp queue) ∙ moved queue ∙ rw str_eq_refl)),
        at_tmp,
        at_other (failed_of queue) (failed-ne-tmp queue)
            ∙ moved (failed_of queue)
            ∙ rw (failed-ne-queue, failed-ne-tmp),
        λ j a b. at_other j b ∙ moved j ∙ rw (a, b),
      )

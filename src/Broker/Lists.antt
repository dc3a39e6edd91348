-- ===== src/Broker/Lists.antt =====
-- What `handle` and `receive` do to the lists of a queue.
use youtube_ar.Base.{
  String, List, ◌∷◌, Option, none, some, ok, GoError, ◌≡◌, ◌≢◌, refl, ◌∙◌, ap, arith, str_eq,
  str_eq_refl, str_eq_of_ne, append-ne_self, append-ne-append, eq_iff, Result-cases, inl, inr,
  false, sym,
}
use youtube_ar.Log.{Field}
use youtube_ar.Redis.{Redis, RedisLists, erase}
use youtube_ar.Broker.{
  tmp_of, failed_of, outcome_fields, handler_error, popped, World, Handler, record_outcome,
  remove_tmp, handle, receive, Outcome, returned, panicked,
}

pub tmp-ne-queue : (q : String) → str_eq (tmp_of q) q ≡ false
tmp-ne-queue q = str_eq_of_ne _ _ (append-ne_self q ":tmp" 3 refl)

pub failed-ne-queue : (q : String) → str_eq (failed_of q) q ≡ false
failed-ne-queue q = str_eq_of_ne _ _ (append-ne_self q ":failed" 6 refl)

pub queue-ne-tmp : (q : String) → str_eq q (tmp_of q) ≡ false
queue-ne-tmp q = str_eq_of_ne _ _ (λ e. append-ne_self q ":tmp" 3 refl (sym e))

pub queue-ne-failed : (q : String) → str_eq q (failed_of q) ≡ false
queue-ne-failed q = str_eq_of_ne _ _ (λ e. append-ne_self q ":failed" 6 refl (sym e))

pub failed-ne-tmp : (q : String) → str_eq (failed_of q) (tmp_of q) ≡ false
failed-ne-tmp q =
    str_eq_of_ne _ _ (append-ne-append q ":failed" ":tmp" (ground (arith, eq_iff ":failed" ":tmp")))

pub tmp-ne-failed : (q : String) → str_eq (tmp_of q) (failed_of q) ≡ false
tmp-ne-failed q =
    str_eq_of_ne _ _ (append-ne-append q ":tmp" ":failed" (ground (arith, eq_iff ":tmp" ":failed")))

-- The list of failed payloads after a call of a handler: a call that returns an error or panics adds its
-- payload.
abbrev pub with_failure : Outcome → String → List String → List String
with_failure (returned none) payload l = l
with_failure (returned (some e)) payload l = payload ∷ l
with_failure (panicked text) payload l = payload ∷ l

module _ (r : Redis) (L : RedisLists r) (D : Type 0) where
  -- A list of the Redis part of a state.
  abbrev pub listed : World r D → String → List String
  listed w j = L.list (w.redis) j

  -- The handler leaves the lists alone.
  abbrev pub KeepsLists : Handler r D → Type 0
  KeepsLists handler =
      (p : String) (w : World r D) (j : String) → listed (handler p w).1 j ≡ listed w j

  record_outcome-listed :
      (queue payload : String) (fields : List Field) (e : Option GoError) (w : World r D)
      (j : String)
      → str_eq j (failed_of queue) ≡ false
      → listed (record_outcome r D queue payload fields e w) j ≡ listed w j
  unfolding record_outcome
  record_outcome-listed queue payload fields none w j h = refl
  record_outcome-listed queue payload fields (some e) w j h =
      elim (Result-cases (r.lpush (failed_of queue) payload w.redis).0) [
        | inl (_, ran) ↦ ground (arith, L.lpush_ok (failed_of queue) payload j w.redis ran)
        | inr (e, ran) ↦ ground (arith, L.lpush_err (failed_of queue) payload j w.redis e ran)
      ]

  -- The list of failed payloads after an outcome.
  abbrev kept : Option GoError → String → List String → List String
  kept none payload l = l
  kept (some e) payload l = payload ∷ l

  kept-handler_error :
      (out : Outcome) (payload : String) (l : List String)
      → kept (handler_error out) payload l ≡ with_failure out payload l
  unfolding handler_error
  kept-handler_error (returned none) payload l = refl
  kept-handler_error (returned (some e)) payload l = refl
  kept-handler_error (panicked text) payload l = refl

  -- No command of the broker fails at any state.
  abbrev pub Reliable : Type 0
  Reliable =
      ((k v : String) (s : r.State) → (r.lpush k v s).0 ≡ ok tt)
      × ((k v : String) (s : r.State) → (r.lrem k 1 v s).0 ≡ ok tt)

  record_outcome-failed :
      (queue payload : String) (fields : List Field) (e : Option GoError) (w : World r D)
      → Reliable
      → listed (record_outcome r D queue payload fields e w) (failed_of queue)
        ≡ kept e payload (listed w (failed_of queue))
  unfolding record_outcome
  record_outcome-failed queue payload fields none w h = refl
  record_outcome-failed queue payload fields (some e) w (pushed, _) = ground (
    arith,
    pushed (failed_of queue) payload w.redis,
    L.lpush_ok (failed_of queue) payload (failed_of queue) w.redis,
    str_eq_refl (failed_of queue),
  )

  -- LPUSH fails on the list of failed payloads.
  record_outcome-unsent :
      (queue payload : String) (fields : List Field) (e : Option GoError) (w : World r D)
      (j : String)
      → ((v : String) (s : r.State) → (r.lpush (failed_of queue) v s).0 ≢ ok tt)
      → listed (record_outcome r D queue payload fields e w) j ≡ listed w j
  unfolding record_outcome
  record_outcome-unsent queue payload fields none w j h = refl
  record_outcome-unsent queue payload fields (some e) w j h =
      elim (Result-cases (r.lpush (failed_of queue) payload w.redis).0) [
        | inl (tt, ran) ↦ absurd (h payload w.redis ran)
        | inr (e, ran) ↦ ground (arith, L.lpush_err (failed_of queue) payload j w.redis e ran)
      ]

  pub remove_tmp-listed :
      (queue payload : String) (w : World r D) (j : String)
      → str_eq j (tmp_of queue) ≡ false
      → listed (remove_tmp r D queue payload w) j ≡ listed w j
  unfolding remove_tmp
  remove_tmp-listed queue payload w j h =
      elim (Result-cases (r.lrem (tmp_of queue) 1 payload w.redis).0) [
        | inl (_, ran) ↦ ground (arith, L.lrem_ok (tmp_of queue) payload j w.redis ran)
        | inr (e, ran) ↦ ground (arith, L.lrem_err (tmp_of queue) payload j w.redis e ran)
      ]

  remove_tmp-tmp :
      (queue payload : String) (w : World r D)
      → (r.lrem (tmp_of queue) 1 payload w.redis).0 ≡ ok tt
      → listed (remove_tmp r D queue payload w) (tmp_of queue)
        ≡ erase payload (listed w (tmp_of queue))
  unfolding remove_tmp
  remove_tmp-tmp queue payload w ran = ground (
    arith,
    L.lrem_ok (tmp_of queue) payload (tmp_of queue) w.redis ran,
    str_eq_refl (tmp_of queue),
  )

  erase-cons : (p : String) (t : List String) → erase p (p ∷ t) ≡ t
  erase-cons p t = rw (str_eq_refl p)

  -- The state in which the handler of a payload that `receive` has moved starts.
  abbrev pub arrived : String → World r D → World r D
  arrived queue w = record w { redis = (r.brpoplpush queue (tmp_of queue) w.redis).1 }

  -- The lists after a payload has been handled, where the commands succeed.
  module _ (reliable : Reliable) (handler : Handler r D) (keeps : KeepsLists handler) where
    pub handle-other :
        (duration queue payload : String) (w : World r D) (j : String)
        → str_eq j (tmp_of queue) ≡ false
        → str_eq j (failed_of queue) ≡ false
        → listed (handle r D duration queue handler payload w) j ≡ listed w j
    unfolding handle
    handle-other duration queue payload w j not_tmp not_failed =
        remove_tmp-listed queue payload _ j not_tmp
        ∙ record_outcome-listed queue payload _ _ _ j not_failed
        ∙ keeps payload w j

    pub handle-tmp :
        (duration queue payload : String) (w : World r D) (t : List String)
        → listed w (tmp_of queue) ≡ payload ∷ t
        → listed (handle r D duration queue handler payload w) (tmp_of queue) ≡ t
    unfolding handle
    handle-tmp duration queue payload w t h =
        remove_tmp-tmp queue payload _ (reliable.1 _ _ _)
        ∙ rw (record_outcome-listed _ _ _ _ _ (tmp_of queue) (tmp-ne-failed queue))
            (rw keeps (rw h (erase-cons payload t)))

    pub handle-failed :
        (duration queue payload : String) (w : World r D)
        → listed (handle r D duration queue handler payload w) (failed_of queue)
          ≡ with_failure (handler payload w).0 payload (listed w (failed_of queue))
    unfolding handle
    handle-failed duration queue payload w =
        remove_tmp-listed queue payload _ (failed_of queue) (failed-ne-tmp queue)
        ∙ record_outcome-failed queue payload (outcome_fields duration queue payload)
            (handler_error (handler payload w).0) (handler payload w).1 reliable
        ∙ ap (kept (handler_error (handler payload w).0) payload)
            (keeps payload w (failed_of queue))
        ∙ kept-handler_error (handler payload w).0 payload (listed w (failed_of queue))

  -- The lists after a payload has been handled, where LPUSH fails on the list of failed payloads.
  module _ (queue : String) (handler : Handler r D) (keeps : KeepsLists handler) where
    pub handle-unsent :
        (duration payload : String) (w : World r D) (t : List String)
        → ((v : String) (s : r.State) → (r.lpush (failed_of queue) v s).0 ≢ ok tt)
        → ((k v : String) (s : r.State) → (r.lrem k 1 v s).0 ≡ ok tt)
        → listed w (tmp_of queue) ≡ payload ∷ t
        → (listed (handle r D duration queue handler payload w) (tmp_of queue) ≡ t)
          × ((j : String)
              → str_eq j (tmp_of queue) ≡ false
              → listed (handle r D duration queue handler payload w) j ≡ listed w j)
    unfolding handle
    handle-unsent duration payload w t unsent removed h = (
      remove_tmp-tmp queue payload _ (removed _ _ _)
          ∙ rw (record_outcome-unsent _ _ _ _ _ (tmp_of queue) unsent)
              (rw keeps (rw h (erase-cons payload t))),
      λ j not_tmp.
          remove_tmp-listed queue payload _ j not_tmp
          ∙ record_outcome-unsent queue payload _ _ _ j unsent
          ∙ keeps payload w j,
    )

    pub received_state :
        (duration queue payload : String) (w : World r D)
        → (r.brpoplpush queue (tmp_of queue) w.redis).0 ≡ ok payload
        → receive r D popped duration queue handler w
          ≡ (ok tt, handle r D duration queue handler payload (arrived queue w))
    unfolding receive
    received_state duration queue payload w h = ground arith

-- ===== src/Broker/Rest.antt =====
-- api/broker/broker.go: what Receive does to the part of the state that is the handler's.
use youtube_ar.Base.{
  String, List, Option, none, some, GoError, Result-cases, inl, inr, ◌≡◌, refl, ◌∙◌, arith,
}
use youtube_ar.Log.{Field}
use youtube_ar.Redis.{Redis}
use youtube_ar.Broker.{World, Handler, failed_of, tmp_of, record_outcome, remove_tmp, handle}

-- The broker's own commands leave the rest of the state alone.
module _ (r : Redis) (D : Type 0) where
  record_outcome-rest :
      (queue payload : String) (fields : List Field) (e : Option GoError) (w : World r D)
      → (record_outcome r D queue payload fields e w).rest ≡ w.rest
  unfolding record_outcome
  record_outcome-rest queue payload fields none w = refl
  record_outcome-rest queue payload fields (some e) w =
      elim (Result-cases (r.lpush (failed_of queue) payload w.redis).0) [
        | inl (_, ran) ↦ ground (arith, ran)
        | inr (e, ran) ↦ ground (arith, ran)
      ]

  remove_tmp-rest :
      (queue payload : String) (w : World r D) → (remove_tmp r D queue payload w).rest ≡ w.rest
  unfolding remove_tmp
  remove_tmp-rest queue payload w =
      elim (Result-cases (r.lrem (tmp_of queue) 1 payload w.redis).0) [
        | inl (_, ran) ↦ ground (arith, ran)
        | inr (e, ran) ↦ ground (arith, ran)
      ]

  pub handle-rest :
      (duration queue payload : String) (handler : Handler r D) (w : World r D)
      → (handle r D duration queue handler payload w).rest ≡ (handler payload w).1.rest
  unfolding handle
  handle-rest duration queue payload handler w =
      remove_tmp-rest queue payload _ ∙ record_outcome-rest queue payload _ _ _

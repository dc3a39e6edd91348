-- ===== src/Event/Tests.antt =====
-- Runs of the encoder.
use youtube_ar.Base.{◌≡◌, refl}
use youtube_ar.Event.{marshal}

sample : marshal (record { id = 120; url = "a<\"\n" }) ≡ "{\"id\":120,\"url\":\"a\\u003c\\\"\\n\"}"
unfolding marshal
sample = refl

empty : marshal (record { id = 18446744073709551615; url = "" }) ≡ "{\"id\":-1,\"url\":\"\"}"
unfolding marshal
empty = refl

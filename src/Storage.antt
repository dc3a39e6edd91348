-- ===== src/Storage.antt =====
-- api/storage/storage.go: what is put into the bucket.
use youtube_ar.Base.{String, Option, none, some, M, codes, has_suffix, if◌then◌else◌}

-- s3.PutObjectInput, without the body's bytes.
pub record PutObject (Body : Type 0) : Type 0 where
  pub bucket : String
  pub key : String
  pub body : Body
  pub content_type : Option String

unfoldable pub content_type : String → Option String
unfolding has_suffix
content_type path =
    if has_suffix (codes path) (codes ".mp3")
    then some "audio/mpeg"
    else if has_suffix (codes path) (codes ".mp4")
    then some "video/mp4"
    else if has_suffix (codes path) (codes ".webm")
    then some "video/webm"
    else none

-- `put_object` is PutObjectWithContext of the AWS SDK.
module _ {Body S : Type 0} (put_object : PutObject Body → M S (Unit {0})) (bucket : String) where
  unfoldable pub save : String → Body → M S (Unit {0})
  unfolding content_type
  save path body =
      put_object
        (record { bucket = bucket; key = path; body = body; content_type = content_type path })

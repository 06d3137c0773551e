-- ===== src/Tests/BlobSet.antt =====
-- bio4d/blob_set.c on a small table.
use blobio.Base.{◌≡◌, refl, ◌||◌, codes, bytes_eq}
use blobio.BlobSet.{HashSet, djb, blob_set_alloc, blob_set_exists, blob_set_put}
use blobio.BlobSet.Membership.{exists-put, alloc_idle}

abbrev three : HashSet
three =
    (blob_set_put (blob_set_put (blob_set_put blob_set_alloc (codes "a")).0 (codes "b")).0
      (codes "c")).0

djb_hello : djb (codes "hello") ≡ 261238937
unfolding djb
djb_hello = refl

exists-put_example :
    blob_set_exists (blob_set_put blob_set_alloc (codes "a")).0 (codes "b")
    ≡ (bytes_eq (codes "a") (codes "b") || blob_set_exists blob_set_alloc (codes "b"))
exists-put_example = exists-put blob_set_alloc (codes "a") (codes "b") alloc_idle

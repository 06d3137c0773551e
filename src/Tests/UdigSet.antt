-- ===== src/Tests/UdigSet.antt =====
-- `blob2udig_set` on small blobs.
use blobio.Base.{◌≡◌, refl, List, [], ◌∷◌, codes, arith, elem, map, All, is_graph}
use blobio.BlobSet.{link, HashSet, blob_set_exists, blob_set_alloc, blob_set_put}
use blobio.UdigSet.{
  blob2udig_set, parsed, refused, duplicate_udig, first_not_lower, algorithm_too_long,
}
use blobio.UdigSet.Lines.{IsName, IsGraph, name, Line, unlines, udig_of}
use blobio.UdigSet.Sets.{Distinct, Holds, blob2udig_set-unlines}
use blobio.UdigSet.Sound.{lines_of_blob2udig_set}
use blobio.UdigSet.Total.{Answers, blob2udig_set-Answers}

sha_IsName : IsName (codes "sha")
unfolding is_graph
sha_IsName = name b's' (codes "ha") (omega arith) (omega arith) (ground arith) (omega arith)

digest_graph : All IsGraph (codes "59a0")
unfolding is_graph
digest_graph = (refl, (refl, (refl, (refl, tt))))

abbrev line : Line
line = record {
  algorithm = codes "sha";
  digest = codes "59a0";
  is_name = sha_IsName;
  is_graph = digest_graph;
}

-- A name that begins with `z`, and one of eight bytes, are refused.
refuses_z : blob2udig_set (codes "zsha:59a0\n") ≡ refused (first_not_lower 1)
unfolding blob2udig_set is_graph
refuses_z = refl

refuses_eight : blob2udig_set (codes "abcdefgh:59a0\n") ≡ refused (algorithm_too_long 1)
unfolding blob2udig_set is_graph
refuses_eight = refl

refuses_duplicate : blob2udig_set (codes "sha:5\nsha:5\n") ≡ refused duplicate_udig
unfolding blob2udig_set is_graph blob_set_alloc blob_set_put blob_set_exists link
refuses_duplicate = refl

abbrev sets : HashSet × HashSet
sets = (
  (blob_set_put blob_set_alloc (codes "sha:59a0")).0,
  (blob_set_put blob_set_alloc (codes "sha")).0,
)

sets_of : blob2udig_set (codes "sha:59a0\n") ≡ parsed sets
unfolding blob2udig_set is_graph blob_set_alloc blob_set_put blob_set_exists link
sets_of = refl

blob2udig_set-unlines_example :
    (uset : HashSet) × (aset : HashSet) × (blob2udig_set (unlines (line ∷ []))
      ≡ parsed (uset, aset))
    × Holds (line ∷ []) uset aset
unfolding elem
blob2udig_set-unlines_example = blob2udig_set-unlines (line ∷ []) (λ e. cc e) (refl, tt)

lines_of_blob2udig_set_example :
    (ls : List Line) × (codes "sha:59a0\n" ≡ unlines ls)
    × Distinct (map udig_of ls)
    × Holds ls sets.0 sets.1
lines_of_blob2udig_set_example = lines_of_blob2udig_set (codes "sha:59a0\n") sets_of

blob2udig_set-Answers_example : Answers (blob2udig_set (codes "sha:\t\n"))
blob2udig_set-Answers_example = blob2udig_set-Answers (codes "sha:\t\n") (λ e. cc e)

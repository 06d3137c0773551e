-- ===== src/FsSha/Disk.antt =====
-- A file system as an association list.
use blobio.Base.{Option, none, some, List, [], ◌∷◌, Bytes, if◌then◌else◌, bytes_eq}

abbrev pub Files : Type 0
Files = List (Bytes × Bytes)

unfoldable pub lookup : Bytes → Files → Option Bytes
lookup path [] = none
lookup path ((p, file) ∷ fs) =
    let rest = lookup path fs in if bytes_eq p path then some file else rest

unfoldable pub unlink : Bytes → Files → Files
unlink path [] = []
unlink path ((p, file) ∷ fs) =
    let rest = unlink path fs in if bytes_eq p path then rest else (p, file) ∷ rest

abbrev replace : Bytes → Option Bytes → Files → Files
replace tgt none fs = fs
replace tgt (some file) fs = (tgt, file) ∷ unlink tgt fs

-- `rename(2)` of a file: what stood at the target is gone.
unfoldable pub rename : Bytes → Bytes → Files → Files
unfolding lookup unlink
rename src tgt fs = replace tgt (lookup src fs) (unlink src fs)

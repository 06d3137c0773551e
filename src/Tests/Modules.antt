-- ===== src/Tests/Modules.antt =====
-- The table with the three modules of the file system.
use blobio.Base.{◌≡◌, refl, true, [], ◌∷◌, codes}
use blobio.Modules.{Module, precedes, in_order}
use blobio.Tests.Verbs.{plain}

abbrev bc160 : Module
bc160 = record { name = codes "bc160"; callbacks = plain }

abbrev btc20 : Module
btc20 = record { name = codes "btc20"; callbacks = plain }

abbrev sha : Module
sha = record { name = codes "sha"; callbacks = plain }

table_in_order : in_order (bc160 ∷ btc20 ∷ sha ∷ []) ≡ true
unfolding in_order precedes
table_in_order = refl

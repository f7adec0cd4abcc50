-- ===== src/Ramdisk/Tests.antt =====
-- The theorems on the ramdisk at the empty disk.
use oscortex.Base.{◌≡◌, some, ℕ, refl, List, [], ◌∷◌, arith}
use oscortex.Ramdisk.{new, write, create, position, starts_with, lookup_static}
use oscortex.Ramdisk.Files.{lookup_static-write}
use oscortex.Ramdisk.Budget.{IsDisk, write-IsDisk}

new-IsDisk : IsDisk new
new-IsDisk = record { slots = refl; counted = refl; within = omega arith }

abbrev path : List ℕ
path = 47 ∷ 116 ∷ 109 ∷ 112 ∷ 47 ∷ 97 ∷ []

write-IsDisk_example : IsDisk (write path (1 ∷ 2 ∷ []) new).0
write-IsDisk_example = write-IsDisk path (1 ∷ 2 ∷ []) new new-IsDisk

lookup_static-write_example : lookup_static path (write path (1 ∷ 2 ∷ []) new).0 ≡ some (1 ∷ 2 ∷ [])
unfolding write create position starts_with
lookup_static-write_example = lookup_static-write path (1 ∷ 2 ∷ []) new refl

-- ===== src/Initramfs/Tests.antt =====
-- An archive with one file, and the theorem on it.
use oscortex.Base.{ℕ, ◌≤◌, ◌≡◌, some, List, [], ◌∷◌, ◌++◌, length, replicate}
use oscortex.Initramfs.{find_in_tar, list_in_tar, is_dir_in_embedded, dir_name, shows_dir}
use oscortex.Initramfs.Listing.{Listing}
use oscortex.Initramfs.Answer.{first_match, any, lines, archive_answers}

-- "./etc/a" with the two bytes "hi", and the block that ends the archive.
abbrev archive : List ℕ
archive =
    (46 ∷ 47 ∷ 101 ∷ 116 ∷ 99 ∷ 47 ∷ 97 ∷ [])
    ++ replicate 117 0
    ++ replicate 10 48
    ++ (50 ∷ 32 ∷ [])
    ++ replicate 20 0
    ++ (48 ∷ [])
    ++ replicate 355 0
    ++ (104 ∷ 105 ∷ [])
    ++ replicate 1022 0

archive_answers_example :
    (ps : List ℕ) × Listing archive 0 ps
    × ((path : List ℕ) → find_in_tar archive path ≡ some (first_match archive path ps))
    × ((path : List ℕ) (c : ℕ) (cs : List ℕ)
        → dir_name path ≡ c ∷ cs
        → is_dir_in_embedded archive path ≡ some (any (shows_dir archive (c ∷ cs)) ps))
    × ((prefix : List ℕ) (cap : ℕ)
        → (out : List ℕ) × (list_in_tar archive prefix cap ≡ some out)
          × (length out ≤ cap)
          × (length (lines archive prefix ps) ≤ cap → out ≡ lines archive prefix ps))
archive_answers_example = archive_answers archive

-- ===== src/Initramfs.antt =====
-- kernel/src/fs/initramfs.rs: the reader of the embedded archive. The archive, which the build
-- generates, is an argument; strings are their bytes. The three loops over the headers are one
-- `scan` with the body that each has; `none` is a scan out of fuel.
pub mod Utf8
pub mod Header
pub mod Listing
pub mod Answer
mod Tests
use oscortex.Base.{
  ℕ, zero, suc, ◌+◌, ◌-◌, ◌*◌, ◌/◌, ◌%◌, ◌^◌, Bool, true, false, not, ◌&&◌, ◌||◌, Option, none,
  some, List, [], ◌∷◌, ◌++◌, get_or, length, take, drop, if◌then◌else◌, ◌==◌, ltb, leb,
}
use oscortex.Base.Slots.{bytes_eq}
use oscortex.Initramfs.Header
use oscortex.Initramfs.Header.{block}

-- `trim_start_matches` with a character.
abbrev trim_start : ℕ → List ℕ → List ℕ
trim_start c [] = []
trim_start c (b ∷ bs) = let rest = trim_start c bs in if b == c then rest else b ∷ bs

-- `trim_end_matches` with a character.
abbrev trim_end : ℕ → List ℕ → List ℕ
trim_end c [] = []
trim_end c (b ∷ bs) = elim (trim_end c bs) [
  | [] ↦ if b == c then [] else b ∷ []
  | x ∷ xs ↦ b ∷ x ∷ xs
]

-- `trim_start_matches("./")`.
abbrev trim_dot_slash : List ℕ → List ℕ
trim_dot_slash [] = []
trim_dot_slash (a ∷ []) = a ∷ []
trim_dot_slash (a ∷ b ∷ bs) =
    let rest = trim_dot_slash bs in if a == 46 && b == 47 then rest else a ∷ b ∷ bs

-- What the body of a loop does: go on, or return.
pub data Flow (S : Type 0) (R : Type 0) : Type 0 where
  next : S → Flow S R
  stop : R → Flow S R

-- The test of the loop and the end of the archive.
pub has_header : List ℕ → ℕ → Bool
has_header tar pos = leb (pos + block) (length tar) && not (get_or (Header.bytes tar pos) 0 0 == 0)

unfoldable pub scan : {S R : Type 0} → List ℕ → (ℕ → S → Flow S R) → (S → R) → ℕ → ℕ → S → Option R
scan tar body at_end zero pos s = none
scan tar body at_end (suc fuel) pos s = elim (has_header tar pos) [
  | false ↦ some (at_end s)
  | true ↦ elim (body pos s) [
    | stop r ↦ some r
    | next t ↦ scan tar body at_end fuel (Header.skip tar pos) t
  ]
]

-- A header fills a block, so there are at most this many rounds.
abbrev pub rounds : List ℕ → ℕ
rounds tar = suc (length tar / block)

-- Whether `find_in_tar` takes the entry.
pub matches : List ℕ → List ℕ → ℕ → Bool
matches tar path pos =
    Header.is_file tar pos
    && bytes_eq (trim_dot_slash (Header.name tar pos)) (trim_dot_slash (trim_start 47 path))
    && leb (pos + block + Header.size tar pos) (length tar)

pub contents : List ℕ → ℕ → List ℕ
contents tar pos = take (Header.size tar pos) (drop (pos + block) tar)

abbrev pub find_body : List ℕ → List ℕ → ℕ → Unit {0} → Flow Unit (Option (List ℕ))
find_body tar path pos u = if matches tar path pos then stop (some (contents tar pos)) else next u

pub find_in_tar : List ℕ → List ℕ → Option (Option (List ℕ))
find_in_tar tar path = scan tar (find_body tar path) (λ u. none) (rounds tar) 0 tt

-- `str::starts_with`.
abbrev starts_with : List ℕ → List ℕ → Bool
starts_with path prefix = bytes_eq (take (length prefix) path) prefix

-- The name relative to the prefix, if the entry is listed.
pub relative : List ℕ → List ℕ → Option (List ℕ)
relative [] name = some name
relative (p ∷ ps) name =
    if starts_with name (p ∷ ps)
    then elim (trim_start 47 (drop (length (p ∷ ps)) name)) [ [] ↦ none | x ∷ xs ↦ some (x ∷ xs) ]
    else none

-- The name that is written for an entry, if it is listed.
pub listed : List ℕ → List ℕ → ℕ → Option (List ℕ)
listed tar prefix pos =
    if Header.is_file tar pos
    then relative (trim_start 47 prefix) (trim_dot_slash (Header.name tar pos))
    else none

abbrev pub line : List ℕ → List ℕ
line rel_name = rel_name ++ (10 ∷ [])

-- The state is what is written to `out`.
abbrev pub list_body : List ℕ → List ℕ → ℕ → ℕ → List ℕ → Flow (List ℕ) (List ℕ)
list_body tar prefix cap pos written = elim (listed tar prefix pos) [
  | none ↦ next written
  | some rel_name ↦
      if leb (length written + suc (length rel_name)) cap
      then next (written ++ line rel_name)
      else next written
]

-- The bytes written to `out`; the source returns their number.
pub list_in_tar : List ℕ → List ℕ → ℕ → Option (List ℕ)
list_in_tar tar prefix cap = scan tar (list_body tar prefix cap) (λ w. w) (rounds tar) 0 []

-- Whether an entry shows that `want` is a directory.
pub shows_dir : List ℕ → List ℕ → ℕ → Bool
shows_dir tar want pos =
    let cmp = trim_end 47 (trim_dot_slash (Header.name tar pos)) in
    Header.typeflag tar pos == 53 && bytes_eq cmp want
    || Header.is_file tar pos
      && ltb (length want) (length cmp)
      && get_or cmp (length want) 0 == 47
      && bytes_eq (take (length want) cmp) want

abbrev pub dir_body : List ℕ → List ℕ → ℕ → Unit {0} → Flow Unit Bool
dir_body tar want pos u = if shows_dir tar want pos then stop true else next u

-- `want` of `is_dir_in_embedded`.
pub dir_name : List ℕ → List ℕ
dir_name path = trim_end 47 (trim_start 47 path)

pub is_dir_in_embedded : List ℕ → List ℕ → Option Bool
is_dir_in_embedded tar path = elim (dir_name path) [
  | [] ↦ some true
  | c ∷ cs ↦ scan tar (dir_body tar (c ∷ cs)) (λ u. false) (rounds tar) 0 tt
]

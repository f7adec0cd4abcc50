-- ===== src/Initramfs/Answer.antt =====
-- What `find_in_tar`, `is_dir_in_embedded` and `list_in_tar` of kernel/src/fs/initramfs.rs answer, as
-- questions about the list of the headers.
use oscortex.Base.{
  ℕ, suc, ◌+◌, ◌≤◌, ◌≡◌, refl, ap, ◌∙◌, Bool, true, false, Option, none, some, List, [], ◌∷◌, ◌++◌,
  length, length-append, if◌then◌else◌, leb, arith, Bool-cases, inl, inr, leb→le, leb→gt,
  append_assoc, Option-cases,
}
use oscortex.Initramfs.{
  find_body, find_in_tar, matches, contents, dir_body, shows_dir, dir_name, is_dir_in_embedded,
  list_body, listed, line, list_in_tar, rounds,
}
use oscortex.Initramfs.Listing.{Listing, over, headers, scan-over}

-- The contents of the first entry that matches.
unfoldable pub first_match : List ℕ → List ℕ → List ℕ → Option (List ℕ)
first_match tar path [] = none
first_match tar path (p ∷ ps) =
    let rest = first_match tar path ps in if matches tar path p then some (contents tar p) else rest

-- Whether some element passes the test.
unfoldable pub any : (ℕ → Bool) → List ℕ → Bool
any p [] = false
any p (x ∷ xs) = let rest = any p xs in if p x then true else rest

find-over :
    (tar path ps : List ℕ) → over (find_body tar path) (λ u. none) ps tt ≡ first_match tar path ps
unfolding over first_match
find-over tar path [] = refl
find-over tar path (p ∷ ps) = elim (Bool-cases (matches tar path p)) [
  | inl e ↦ rw (over, first_match, e) refl
  | inr e ↦ rw (over, first_match, e) (find-over tar path ps)
]

dir-over :
    (tar want ps : List ℕ)
    → over (dir_body tar want) (λ u. false) ps tt ≡ any (shows_dir tar want) ps
unfolding over any
dir-over tar want [] = refl
dir-over tar want (p ∷ ps) = elim (Bool-cases (shows_dir tar want p)) [
  | inl e ↦ rw (over, any, e) refl
  | inr e ↦ rw (over, any, e) (dir-over tar want ps)
]

-- The lines of the entries that are listed.
unfoldable pub lines : List ℕ → List ℕ → List ℕ → List ℕ
lines tar prefix [] = []
lines tar prefix (p ∷ ps) =
    let rest = lines tar prefix ps in
    elim (listed tar prefix p) [ none ↦ rest | some rel_name ↦ line rel_name ++ rest ]

length-line : (name : List ℕ) → length (line name) ≡ suc (length name)
length-line name = length-append name (10 ∷ []) ∙ omega arith

IsListed : List ℕ → List ℕ → ℕ → List ℕ → List ℕ → List ℕ → Type 0
IsListed tar prefix cap ps written out =
    (length out ≤ cap)
    × (length written + length (lines tar prefix ps) ≤ cap → out ≡ written ++ lines tar prefix ps)

length-lines :
    (tar prefix : List ℕ) (p : ℕ) (ps name : List ℕ)
    → listed tar prefix p ≡ some name
    → length (lines tar prefix (p ∷ ps)) ≡ suc (length name) + length (lines tar prefix ps)
unfolding lines
length-lines tar prefix p ps name e =
    let u = length-append (line name) (lines tar prefix ps) in
    let w = length-line name in rw (lines, e) (u ∙ omega (arith, w))

nothing : (ws : List ℕ) → ws ≡ ws ++ []
nothing [] = refl
nothing (w ∷ ws) = ap (◌∷◌ w) (nothing ws)

list-over :
    (tar prefix : List ℕ) (cap : ℕ) (ps written : List ℕ)
    → length written ≤ cap
    → IsListed tar prefix cap ps written (over (list_body tar prefix cap) (λ w. w) ps written)
unfolding over lines IsListed
list-over tar prefix cap [] written h = (h, λ k. nothing written)
list-over tar prefix cap (p ∷ ps) written h = elim (Option-cases (listed tar prefix p)) [
  | inl e ↦ rw (over, lines, e) (list-over tar prefix cap ps written h)
  | inr (name, e) ↦
      (let w = length-line name in
        let v = length-append written (line name) in
        let u = length-lines tar prefix p ps name e in
        elim (Bool-cases (leb (length written + suc (length name)) cap)) [
          | inl f ↦
              (let g = leb→le (length written + suc (length name)) cap f in
                let (a, b) =
                  list-over tar prefix cap ps (written ++ line name) (omega (arith, w, v, g)) in
                (
                  rw (over, e, f) a,
                  λ k.
                      rw (over, lines, e, f)
                        (b (omega (arith, w, v, u, k))
                          ∙ append_assoc written (line name) (lines tar prefix ps)),
                ))
          | inr f ↦
              (let (a, b) = list-over tar prefix cap ps written h in
                (
                  rw (over, e, f) a,
                  λ k. absurd (
                      let g = leb→gt (length written + suc (length name)) cap f in
                      omega (arith, u, g, k)),
                ))
        ])
]

-- For every archive, the three readers return, whatever the size fields in it say, and answer from the
-- list of the headers that the archive has one after the other: `find_in_tar` with the contents of the
-- first entry that matches the path; `is_dir_in_embedded`, for a path other than the root, with
-- whether some entry shows a directory of that name; `list_in_tar` with at most as many bytes as
-- `cap`, which are the lines of all listed entries, in order, if these fit.
pub archive_answers :
    (tar : List ℕ)
    → (ps : List ℕ) × Listing tar 0 ps
      × ((path : List ℕ) → find_in_tar tar path ≡ some (first_match tar path ps))
      × ((path : List ℕ) (c : ℕ) (cs : List ℕ)
          → dir_name path ≡ c ∷ cs
          → is_dir_in_embedded tar path ≡ some (any (shows_dir tar (c ∷ cs)) ps))
      × ((prefix : List ℕ) (cap : ℕ)
          → (out : List ℕ) × (list_in_tar tar prefix cap ≡ some out)
            × (length out ≤ cap)
            × (length (lines tar prefix ps) ≤ cap → out ≡ lines tar prefix ps))
unfolding find_in_tar is_dir_in_embedded list_in_tar IsListed
archive_answers tar =
    let (ps, l, h) = headers tar in
    (
      ps,
      l,
      λ path.
          scan-over tar (find_body tar path) (λ u. none) (rounds tar) 0 ps l h tt
          ∙ ap some (find-over tar path ps),
      λ path c cs e.
          rw (is_dir_in_embedded, e)
            (scan-over tar (dir_body tar (c ∷ cs)) (λ u. false) (rounds tar) 0 ps l h tt
              ∙ ap some (dir-over tar (c ∷ cs) ps)),
      λ prefix cap.
          let body = list_body tar prefix cap in
          let (a, b) = list-over tar prefix cap ps [] (omega arith) in
          (
            over body (λ w. w) ps [],
            scan-over tar body (λ w. w) (rounds tar) 0 ps l h [],
            a,
            λ k. b (omega (arith, k)),
          ),
    )

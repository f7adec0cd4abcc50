-- ===== src/Pkg/Resolver.antt =====
-- kernel/src/pkg/resolver.rs: fetching, checking and installing packages on demand. What the network,
-- the application registry and the frame counter answer are arguments of the calls; the signature check of
-- Ed25519 is a parameter.
pub mod Trust
mod Tests
use oscortex.Base.{
  ℕ, zero, suc, ◌+◌, ◌%◌, ◌^◌, Bool, true, false, not, ◌&&◌, Option, none, some, List, [], ◌∷◌,
  ◌++◌, find, length, if◌then◌else◌, ◌==◌,
}
use oscortex.Base.Int.{ℤ, pos, negsuc}
use oscortex.Base.Slots.{bytes_eq}
use oscortex.Cache.{CacheState, lookup, insert, touch}
use oscortex.Pkg.Sha256.{hash, hash_eq, hash_hex}
use oscortex.Pkg.Manifest.{PkgManifest, parse_catalog, until_nul, is_system}

pub data ResolveError : Type 0 where
  no_catalog not_found fetch_failed hash_mismatch bad_signature install_failed cache_full :
      ResolveError

pub data Answer : Type 0 where
  ok : ℕ → Answer
  err : ResolveError → Answer

-- `SERVER`, `CATALOG` and the package cache; the paths that were requested and the bundles that were
-- installed.
pub record Resolver : Type 0 where
  pub ip : ℕ
  pub port : ℕ
  pub catalog : List PkgManifest
  pub cache : CacheState
  pub requested : List (List ℕ)
  pub installed : List (List ℕ)

abbrev pub set_server : ℕ → ℕ → Resolver → Resolver
set_server ip port s = record s { ip = ip; port = port }

-- "/pkg/", the digest and ".osx".
abbrev pub bundle_path : List ℕ → List ℕ
bundle_path digest = 47 ∷ 112 ∷ 107 ∷ 103 ∷ 47 ∷ (hash_hex digest ++ (46 ∷ 111 ∷ 115 ∷ 120 ∷ []))

abbrev pub has_name : List ℕ → PkgManifest → Bool
has_name name m = bytes_eq (until_nul m.name) (until_nul name)

abbrev pub find_manifest : List ℕ → List PkgManifest → Option PkgManifest
find_manifest name catalog = find (has_name name) catalog

-- Steps 4 to 6 of `resolve`; `app` is what the registry answers to the bundle.
pub check_and_install : PkgManifest → List ℕ → Option ℕ → ℕ → Resolver → Resolver × Answer
check_and_install m bundle app now s =
    if not (hash_eq (hash bundle) m.hash) then (s, err hash_mismatch) else elim app [
      | none ↦ (s, err install_failed)
      | some app_id ↦ (
        record s {
          cache = (insert app_id m.hash (is_system m) now s.cache).0;
          installed = s.installed ++ (bundle ∷ []);
        },
        ok app_id,
      )
    ]

-- `fetched` is what the server answers to the request for the bundle.
pub resolve : List ℕ → Option (List ℕ) → Option ℕ → ℕ → Resolver → Resolver × Answer
resolve name fetched app now s = elim (find_manifest name s.catalog) [
  | none ↦ (s, err not_found)
  | some m ↦
      (let (cache, hit) = lookup m.hash now s.cache in
        let looked : Resolver = record s { cache = cache } in
        elim hit [
          | some app_id ↦ (looked, ok app_id)
          | none ↦
              (let asked : Resolver = record looked {
                requested = s.requested ++ (bundle_path m.hash ∷ []);
              } in
                elim fetched [
                  | none ↦ (asked, err fetch_failed)
                  | some bundle ↦ check_and_install m bundle app now asked
                ])
        ])
]

-- The part of `resolve_and_launch` behind `resolve`; `pid` is what the registry's `launch` answers.
abbrev pub launch : ℕ → ℤ → Resolver → Answer → Resolver × Answer
launch now pid s (err e) = (s, err e)
launch now pid s (ok app_id) = (
  record s { cache = touch app_id now s.cache },
  elim pid [ pos p ↦ ok (p % 2 ^ 32) | negsuc e ↦ err install_failed ],
)

abbrev pub resolve_and_launch :
    List ℕ → Option (List ℕ) → Option ℕ → ℕ → ℤ → Resolver → Resolver × Answer
resolve_and_launch name fetched app now pid s =
    let (s1, answer) = resolve name fetched app now s in launch now pid s1 answer

module _ (verify : List ℕ → List ℕ → Bool) where
  -- `verify` is the check of a signature of 64 bytes against the public key.
  abbrev pub verify_catalog_sig : List ℕ → List ℕ → Bool
  verify_catalog_sig message signature =
      if length signature == 64 then verify message signature else false

  -- "/catalog.bin" and "/catalog.sig".
  abbrev pub catalog_path : List ℕ
  catalog_path = 47 ∷ 99 ∷ 97 ∷ 116 ∷ 97 ∷ 108 ∷ 111 ∷ 103 ∷ 46 ∷ 98 ∷ 105 ∷ 110 ∷ []

  abbrev pub signature_path : List ℕ
  signature_path = 47 ∷ 99 ∷ 97 ∷ 116 ∷ 97 ∷ 108 ∷ 111 ∷ 103 ∷ 46 ∷ 115 ∷ 105 ∷ 103 ∷ []

  -- `body` and `signature` are what the server answers to the two requests.
  pub refresh_catalog : Option (List ℕ) → Option (List ℕ) → Resolver → Resolver × Answer
  refresh_catalog body signature s =
      let first : Resolver = record s { requested = s.requested ++ (catalog_path ∷ []) } in
      elim body [
        | none ↦ (first, err fetch_failed)
        | some b ↦
            (let second : Resolver = record first {
              requested = first.requested ++ (signature_path ∷ []);
            } in
              elim signature [
                | none ↦ (second, err bad_signature)
                | some sig ↦
                    (if not (verify_catalog_sig b sig)
                      then (second, err bad_signature)
                      else elim (parse_catalog b) [
                        | none ↦ (second, err fetch_failed)
                        | some entries ↦ (record second { catalog = entries }, ok (length entries))
                      ])
              ])
      ]

-- ===== src/Pkg/Resolver/Tests.antt =====
-- The theorems on packages, with a signature check that accepts one byte string.
use oscortex.Base.{
  ℕ, ◌%◌, ◌≡◌, refl, Bool, some, List, [], ◌∷◌, ◌++◌, length, replicate, arith, ◌==◌, get_or,
}
use oscortex.Cache.{new}
use oscortex.Pkg.Sha256.{hash}
use oscortex.Pkg.Sha256.Padding.{pad, reference, hash-reference}
use oscortex.Pkg.Sha256.Digest.{hash-IsDigest}
use oscortex.Pkg.Manifest.{PkgManifest, parse_catalog, serialize_catalog}
use oscortex.Pkg.Manifest.Catalog.{IsManifest, parse-serialize_catalog}
use oscortex.Pkg.Resolver.{Resolver}
use oscortex.Pkg.Resolver.Trust.{Call, refreshes, resolves, run, IsTrusted, run-installs_vouched}

abbrev abc : List ℕ
abc = 97 ∷ 98 ∷ 99 ∷ []

hash-reference_example : (length (pad abc) % 64 ≡ 0) × (hash abc ≡ reference abc)
hash-reference_example = hash-reference abc

-- The application "a" with the bundle "abc".
abbrev manifest : PkgManifest
manifest = record {
  name = 97 ∷ replicate 63 0;
  version = 49 ∷ replicate 15 0;
  hash = hash abc;
  size_bytes = 3;
  flags = 1;
  reserved = replicate 8 0;
}

manifest-IsManifest : IsManifest manifest
manifest-IsManifest = record {
  name_size = refl;
  version_size = refl;
  hash_size = (hash-IsDigest abc).1;
  size_fits = omega arith;
  flags_fit = omega arith;
  reserved_size = refl;
}

parse-serialize_catalog_example :
    parse_catalog (serialize_catalog (manifest ∷ []) ++ abc) ≡ some (manifest ∷ [])
parse-serialize_catalog_example =
    parse-serialize_catalog (manifest ∷ []) abc (manifest-IsManifest, tt) (omega arith)

abbrev start : Resolver
start = record { ip = 1; port = 8080; catalog = []; cache = new; requested = []; installed = [] }

abbrev accepts : List ℕ → List ℕ → Bool
accepts message signature = get_or signature 0 0 == 7

abbrev calls : List Call
calls =
    refreshes (some (serialize_catalog (manifest ∷ []))) (some (replicate 64 7))
    ∷ resolves (97 ∷ []) (some abc) (some 5) 1
    ∷ resolves (97 ∷ []) (some (98 ∷ [])) (some 6) 2
    ∷ []

run-installs_vouched_example : IsTrusted accepts (run accepts calls start)
run-installs_vouched_example = run-installs_vouched accepts calls start refl refl

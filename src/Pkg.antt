-- ===== src/Pkg.antt =====
-- kernel/src/pkg: hashing, the catalog and the resolver of packages.
pub mod Sha256
pub mod Manifest
pub mod Resolver

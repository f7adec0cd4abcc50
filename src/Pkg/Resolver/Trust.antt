-- ===== src/Pkg/Resolver/Trust.antt =====
-- The chain of trust of kernel/src/pkg/resolver.rs: from the signature of the catalog to the bundles that are
-- installed.
use mathlib.Core.List.{Mem, mem-cons_self, mem-cons_of_mem}
use oscortex.Base.{
  ℕ, ◌≡◌, ◌⊎◌, inl, inr, refl, sym, ap, ◌∙◌, subst, Bool, true, Option, some, List, [], ◌∷◌, find,
  All, All-append, length, Bool-cases, Option-cases, none_ne_some, some-inj, if◌then◌else◌,
}
use oscortex.Base.Int.{ℤ}
use oscortex.Cache.{lookup}
use oscortex.Pkg.Sha256.{hash, hash_eq}
use oscortex.Pkg.Sha256.Digest.{hash-IsDigest}
use oscortex.Pkg.Sha256.Equal.{hash_eq_iff}
use oscortex.Pkg.Manifest.{PkgManifest, parse_catalog}
use oscortex.Pkg.Manifest.Catalog.{parse_catalog-hash}
use oscortex.Pkg.Resolver.{
  Resolver, Answer, ok, err, set_server, find_manifest, has_name, check_and_install, resolve,
  launch, resolve_and_launch, refresh_catalog, verify_catalog_sig,
}

module _ {ℓ} {A : Type ℓ} where
  find-Mem : (p : A → Bool) (xs : List A) (x : A) → find p xs ≡ some x → Mem x xs
  find-Mem p [] x e = absurd (none_ne_some e)
  find-Mem p (y ∷ ys) x e = elim (Bool-cases (p y)) [
    | inl q ↦
        subst (λ z. Mem z (y ∷ ys))
          (some-inj (sym (ap (λ (b : Bool). if b then some y else find p ys) q) ∙ e)) mem-cons_self
    | inr q ↦
        mem-cons_of_mem y
          (find-Mem p ys x (sym (ap (λ (b : Bool). if b then some y else find p ys) q) ∙ e))
  ]

  All-find {κ} :
      (P : A → Type κ) (p : A → Bool) (xs : List A) (x : A) → All P xs → find p xs ≡ some x → P x
  All-find P p [] x a e = absurd (none_ne_some e)
  All-find P p (y ∷ ys) x a e = elim (Bool-cases (p y)) [
    | inl q ↦
        subst P (some-inj (sym (ap (λ (b : Bool). if b then some y else find p ys) q) ∙ e)) a.0
    | inr q ↦ All-find P p ys x a.1 (sym (ap (λ (b : Bool). if b then some y else find p ys) q) ∙ e)
  ]

pub data Call : Type 0 where
  refreshes : Option (List ℕ) → Option (List ℕ) → Call
  resolves : List ℕ → Option (List ℕ) → Option ℕ → ℕ → Call
  launches : List ℕ → Option (List ℕ) → Option ℕ → ℕ → ℤ → Call
  sets_server : ℕ → ℕ → Call

module _ (verify : List ℕ → List ℕ → Bool) where
  -- The entries of a catalog whose signature was accepted.
  abbrev pub Trusted : List PkgManifest → Type 0
  Trusted ms =
      (body : List ℕ) × (sig : List ℕ) × (verify_catalog_sig verify body sig ≡ true)
      × (parse_catalog body ≡ some ms)

  -- The digest of the bundle stands in such a catalog.
  abbrev pub Vouched : List ℕ → Type 0
  Vouched bundle =
      (ms : List PkgManifest) × (m : PkgManifest) × Trusted ms × Mem m ms × (hash bundle ≡ m.hash)

  pub record IsTrusted (s : Resolver) : Type 0 where
    pub source : (s.catalog ≡ []) ⊎ Trusted s.catalog
    pub vouched : All Vouched s.installed

  catalog_entry_holds :
      (name : List ℕ) (s : Resolver) (m : PkgManifest) (bundle : List ℕ)
      → IsTrusted s
      → find_manifest name s.catalog ≡ some m
      → hash_eq (hash bundle) m.hash ≡ true
      → Vouched bundle
  catalog_entry_holds name s m bundle v e h = elim v.source [
    | inl n ↦ absurd (none_ne_some (sym (ap (find_manifest name) n) ∙ e))
    | inr t ↦
        (let size =
            All-find (λ (p : PkgManifest). length p.hash ≡ 32) (has_name name) s.catalog m
              (parse_catalog-hash t.0 s.catalog t.3) e in
          (
            s.catalog,
            m,
            t,
            find-Mem (has_name name) s.catalog m e,
            (hash_eq_iff (hash bundle) m.hash ((hash-IsDigest bundle).1 ∙ sym size)).0 h,
          ))
  ]

  check-IsTrusted :
      (m : PkgManifest) (bundle : List ℕ) (app : Option ℕ) (now : ℕ) (s : Resolver)
      → (hash_eq (hash bundle) m.hash ≡ true → Vouched bundle)
      → IsTrusted s
      → IsTrusted (check_and_install m bundle app now s).0
  unfolding check_and_install
  check-IsTrusted m bundle app now s f v = elim (Bool-cases (hash_eq (hash bundle) m.hash)) [
    | inr h ↦ rw h v
    | inl h ↦ elim (Option-cases app) [
      | inl a ↦ rw (h, a) v
      | inr (id, a) ↦
          rw (h, a)
            (record {
              source = v.source;
              vouched = All-append Vouched s.installed (bundle ∷ []) v.vouched (f h, tt);
            })
    ]
  ]

  same_trust :
      (s t : Resolver)
      → s.catalog ≡ t.catalog
      → s.installed ≡ t.installed
      → IsTrusted s
      → IsTrusted t
  same_trust s t c i v = record {
    source = subst (λ (ms : List PkgManifest). (ms ≡ []) ⊎ Trusted ms) c v.source;
    vouched = subst (All Vouched) i v.vouched;
  }

  resolve-IsTrusted :
      (name : List ℕ) (fetched : Option (List ℕ)) (app : Option ℕ) (now : ℕ) (s : Resolver)
      → IsTrusted s
      → IsTrusted (resolve name fetched app now s).0
  unfolding resolve
  resolve-IsTrusted name fetched app now s v = elim (Option-cases (find_manifest name s.catalog)) [
    | inl e ↦ rw (resolve, e) v
    | inr (m, e) ↦ elim (Option-cases (lookup m.hash now s.cache).1) [
      | inr (id, k) ↦ rw (resolve, e, k) (same_trust s _ refl refl v)
      | inl k ↦ elim (Option-cases fetched) [
        | inl f ↦ rw (resolve, e, k, f) (same_trust s _ refl refl v)
        | inr (bundle, f) ↦
            rw (resolve, e, k, f)
              (check-IsTrusted m bundle app now _ (catalog_entry_holds name s m bundle v e)
                (same_trust s _ refl refl v))
      ]
    ]
  ]

  refresh-IsTrusted :
      (body sig : Option (List ℕ)) (s : Resolver)
      → IsTrusted s
      → IsTrusted (refresh_catalog verify body sig s).0
  unfolding refresh_catalog
  refresh-IsTrusted body sig s v = elim (Option-cases body) [
    | inl e ↦ rw (refresh_catalog, e) (same_trust s _ refl refl v)
    | inr (b, e) ↦ elim (Option-cases sig) [
      | inl k ↦ rw (refresh_catalog, e, k) (same_trust s _ refl refl v)
      | inr (g, k) ↦ elim (Bool-cases (verify_catalog_sig verify b g)) [
        | inr c ↦ rw (refresh_catalog, e, k, c) (same_trust s _ refl refl v)
        | inl c ↦ elim (Option-cases (parse_catalog b)) [
          | inl p ↦ rw (refresh_catalog, e, k, c, p) (same_trust s _ refl refl v)
          | inr (ms, p) ↦
              rw (refresh_catalog, e, k, c, p)
                (record { source = inr (b, g, c, p); vouched = v.vouched })
        ]
      ]
    ]
  ]

  launch-IsTrusted :
      (name : List ℕ) (fetched : Option (List ℕ)) (app : Option ℕ) (now : ℕ) (pid : ℤ)
      (s : Resolver)
      → IsTrusted s
      → IsTrusted (resolve_and_launch name fetched app now pid s).0
  launch-IsTrusted name fetched app now pid s v =
      after (resolve name fetched app now s).0 (resolve name fetched app now s).1
        (resolve-IsTrusted name fetched app now s v)
    where
      after : (s1 : Resolver) (a : Answer) → IsTrusted s1 → IsTrusted (launch now pid s1 a).0
      after s1 (err e) w = w
      after s1 (ok app_id) w = same_trust s1 _ refl refl w

  abbrev pub step : Call → Resolver → Resolver
  step (refreshes body sig) s = (refresh_catalog verify body sig s).0
  step (resolves name fetched app now) s = (resolve name fetched app now s).0
  step (launches name fetched app now pid) s = (resolve_and_launch name fetched app now pid s).0
  step (sets_server ip port) s = set_server ip port s

  abbrev pub run : List Call → Resolver → Resolver
  run [] s = s
  run (c ∷ cs) s = run cs (step c s)

  step-IsTrusted : (c : Call) (s : Resolver) → IsTrusted s → IsTrusted (step c s)
  step-IsTrusted (refreshes body sig) s v = refresh-IsTrusted body sig s v
  step-IsTrusted (resolves name fetched app now) s v = resolve-IsTrusted name fetched app now s v
  step-IsTrusted (launches name fetched app now pid) s v =
      launch-IsTrusted name fetched app now pid s v
  step-IsTrusted (sets_server ip port) s v = same_trust s _ refl refl v

  run_from : (cs : List Call) (s : Resolver) → IsTrusted s → IsTrusted (run cs s)
  run_from [] s v = v
  run_from (c ∷ cs) s v = run_from cs (step c s) (step-IsTrusted c s v)

  -- Starting with no catalog and nothing installed, after any sequence of `refresh_catalog`,
  -- `resolve`, `resolve_and_launch` and `set_server` calls, whatever the network answers, the catalog
  -- is empty or was parsed from bytes whose signature was accepted, and the SHA-256 digest of every
  -- bundle that was installed is the digest of an entry of such a catalog.
  pub run-installs_vouched :
      (cs : List Call) (s : Resolver) → s.catalog ≡ [] → s.installed ≡ [] → IsTrusted (run cs s)
  run-installs_vouched cs s c i =
      run_from cs s (record { source = inl c; vouched = subst (All Vouched) (sym i) tt })

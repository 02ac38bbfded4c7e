-- ===== src/Cache/Namespace.antt =====
-- A namespace over a cache is a cache again, and keeps to its own keys.
use Prim.Native.String.{◌++◌}
use text.Mathlib.TextLemmas.{append_cancel_left}
use go_openbmclapi.Prelude.{ℕ, String, ◌≡◌, ◌≢◌, refl, Option, none, some, List}
use go_openbmclapi.Cache.{
  CacheOpt, Methods, Cache, no_cache, caching, no_methods, methods, ns_methods,
  new_cache_with_namespace,
}

-- What a get may answer for the value last set. A cache may drop a value, so that nothing may be found.
pub data Found {ℓ} {V : Type ℓ} (v : V) : Option V → Type ℓ where
  dropped : Found v none
  kept : Found v (some v)

-- What the two getters find under a key.
abbrev pub seen {ℓ} : {S : Type ℓ} → Methods S → String → S → Option String × Option (List ℕ)
seen c j s = (c.get j s, c.get_bytes j s)

-- What a cache is asked to keep: a value that is found is the one last set under its key, nothing is
-- found under a deleted key, and no set or delete changes what is found under another key.
pub record IsLawful {ℓ} {S : Type ℓ} (c : Methods S) : Type ℓ where
  pub get-set : (k v : String) (o : CacheOpt) (s : S) → Found v (c.get k (c.set k v o s))
  pub bytes-set :
      (k : String) (v : List ℕ) (o : CacheOpt) (s : S)
      → Found v (c.get_bytes k (c.set_bytes k v o s))
  pub seen-delete : (k : String) (s : S) → seen c k (c.delete k s) ≡ (none, none)
  pub set_other :
      (j k v : String) (o : CacheOpt) (s : S) → j ≢ k → seen c j (c.set k v o s) ≡ seen c j s
  pub set_bytes_other :
      (j k : String) (v : List ℕ) (o : CacheOpt) (s : S)
      → j ≢ k
      → seen c j (c.set_bytes k v o s) ≡ seen c j s
  pub delete_other : (j k : String) (s : S) → j ≢ k → seen c j (c.delete k s) ≡ seen c j s

-- No key of the namespace.
abbrev pub IsOutside : String → String → Type 0
IsOutside ns j = (k : String) → j ≢ (ns ++ k)

-- The cache `d` writes to no key of `c` that does not begin with `ns`.
pub record IsConfined {ℓ} {S : Type ℓ} (ns : String) (c d : Methods S) : Type ℓ where
  pub set_outside :
      (j k v : String) (o : CacheOpt) (s : S)
      → IsOutside ns j
      → seen c j (d.set k v o s) ≡ seen c j s
  pub set_bytes_outside :
      (j k : String) (v : List ℕ) (o : CacheOpt) (s : S)
      → IsOutside ns j
      → seen c j (d.set_bytes k v o s) ≡ seen c j s
  pub delete_outside :
      (j k : String) (s : S) → IsOutside ns j → seen c j (d.delete k s) ≡ seen c j s

differ : (ns j k : String) → j ≢ k → (ns ++ j) ≢ (ns ++ k)
differ ns j k ne e = ne (append_cancel_left ns j k e)

module _ {ℓ} {S : Type ℓ} where
  ns_methods-IsLawful : (c : Methods S) (ns : String) → IsLawful c → IsLawful (ns_methods ns c)
  unfolding ns_methods
  ns_methods-IsLawful c ns law = record {
    get-set = λ k v o s. law.get-set (ns ++ k) v o s;
    bytes-set = λ k v o s. law.bytes-set (ns ++ k) v o s;
    seen-delete = λ k s. law.seen-delete (ns ++ k) s;
    set_other = λ j k v o s ne. law.set_other (ns ++ j) (ns ++ k) v o s (differ ns j k ne);
    set_bytes_other =
        λ j k v o s ne. law.set_bytes_other (ns ++ j) (ns ++ k) v o s (differ ns j k ne);
    delete_other = λ j k s ne. law.delete_other (ns ++ j) (ns ++ k) s (differ ns j k ne);
  }

  ns_methods-IsConfined :
      (c : Methods S) (ns : String) → IsLawful c → IsConfined ns c (ns_methods ns c)
  unfolding ns_methods
  ns_methods-IsConfined c ns law = record {
    set_outside = λ j k v o s out. law.set_other j (ns ++ k) v o s (out k);
    set_bytes_outside = λ j k v o s out. law.set_bytes_other j (ns ++ k) v o s (out k);
    delete_outside = λ j k s out. law.delete_other j (ns ++ k) s (out k);
  }

  no_methods-IsConfined : (ns : String) → IsConfined ns (no_methods {S = S}) no_methods
  unfolding no_methods
  no_methods-IsConfined ns = record {
    set_outside = λ j k v o s out. refl;
    set_bytes_outside = λ j k v o s out. refl;
    delete_outside = λ j k s out. refl;
  }

  -- If the methods of a cache keep the laws of a cache (a get finds the value last set under its key
  -- or nothing, both getters find nothing under a deleted key, and a set or delete changes nothing that
  -- a getter finds under another key), so does the cache with a namespace; and a set or delete through
  -- the namespace changes nothing that the cache itself finds under a key that does not begin with
  -- the namespace.
  pub new_cache_with_namespace-IsLawful :
      (c : Cache S) (ns : String)
      → IsLawful (methods c)
      → IsLawful (methods (new_cache_with_namespace c ns))
        × IsConfined ns (methods c) (methods (new_cache_with_namespace c ns))
  unfolding new_cache_with_namespace methods
  new_cache_with_namespace-IsLawful no_cache ns law = (law, no_methods-IsConfined ns)
  new_cache_with_namespace-IsLawful (caching c) ns law =
      (ns_methods-IsLawful c ns law, ns_methods-IsConfined c ns law)

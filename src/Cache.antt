-- ===== src/Cache.antt =====
-- cache: the interface of a cache, the cache that keeps nothing, and namespaces over another cache.
-- A cache is a record of its methods over a state `S`; an expiration is a number of nanoseconds.
pub mod Namespace
pub mod Tests
use Prim.Native.String.{◌++◌}
use go_openbmclapi.Prelude.{ℕ, String, Bool, true, false, Option, none, some, List}
use go_openbmclapi.Prelude.Int.{ℤ, pos}

pub record CacheOpt : Type 0 where
  pub expiration : ℤ

-- A []byte is the list of its bytes.
pub record Methods {ℓ} (S : Type ℓ) : Type ℓ where
  pub set : String → String → CacheOpt → S → S
  pub get : String → S → Option String
  pub set_bytes : String → List ℕ → CacheOpt → S → S
  pub get_bytes : String → S → Option (List ℕ)
  pub delete : String → S → S

-- A Cache is NoCache or another one: NewCacheWithNamespace compares with NoCache.
pub data Cache {ℓ} (S : Type ℓ) : Type ℓ where
  no_cache : Cache S
  caching : Methods S → Cache S

unfoldable pub no_methods {ℓ} : {S : Type ℓ} → Methods S
no_methods = record {
  set = λ key value opt s. s;
  get = λ key s. none;
  set_bytes = λ key value opt s. s;
  get_bytes = λ key s. none;
  delete = λ key s. s;
}

unfoldable pub methods {ℓ} : {S : Type ℓ} → Cache S → Methods S
unfolding no_methods
methods no_cache = no_methods
methods (caching c) = c

-- The methods of nsCache.
unfoldable pub ns_methods {ℓ} : {S : Type ℓ} → String → Methods S → Methods S
ns_methods ns c = record {
  set = λ key value opt s. c.set (ns ++ key) value opt s;
  get = λ key s. c.get (ns ++ key) s;
  set_bytes = λ key value opt s. c.set_bytes (ns ++ key) value opt s;
  get_bytes = λ key s. c.get_bytes (ns ++ key) s;
  delete = λ key s. c.delete (ns ++ key) s;
}

unfoldable pub new_cache_with_namespace {ℓ} : {S : Type ℓ} → Cache S → String → Cache S
unfolding ns_methods
new_cache_with_namespace no_cache ns = no_cache
new_cache_with_namespace (caching c) ns = caching (ns_methods ns c)

-- The methods that httpcache.Cache asks for, by httpCacheWrapper.
pub record HttpCache {ℓ} (S : Type ℓ) : Type ℓ where
  pub set : String → List ℕ → S → S
  pub get : String → S → Option (List ℕ)
  pub delete : String → S → S

abbrev pub hour : CacheOpt
hour = record { expiration = pos 3600000000000 }

unfoldable pub wrap_to_http_cache {ℓ} : {S : Type ℓ} → Cache S → HttpCache S
unfolding methods
wrap_to_http_cache c = record {
  set = λ key value s. (methods c).set_bytes key value hour s;
  get = λ key s. (methods c).get_bytes key s;
  delete = λ key s. (methods c).delete key s;
}

-- ===== src/Cache/Tests.antt =====
-- cache: namespaces on a concrete cache.
use go_openbmclapi.Prelude.{
  String, ◌≡◌, ◌≢◌, refl, Option, none, some, List, ℕ, if◌then◌else◌, arith,
}
use go_openbmclapi.Prelude.Eq.{string_eq, ◌==◌, ==-self}
use go_openbmclapi.Cache.{Methods, caching, methods, new_cache_with_namespace}
use go_openbmclapi.Cache.Namespace.{
  Found, kept, IsLawful, IsConfined, new_cache_with_namespace-IsLawful,
}

abbrev Stored : Type 0
Stored = (String → Option String) × (String → Option (List ℕ))

abbrev write_at : {V : Type 0} → String → Option V → (String → Option V) → String → Option V
write_at k v f j = if j == k then v else f j

abbrev stores_all : Methods Stored
stores_all = record {
  set = λ k v o s. (write_at k (some v) s.0, s.1);
  get = λ k s. s.0 k;
  set_bytes = λ k v o s. (s.0, write_at k (some v) s.1);
  get_bytes = λ k s. s.1 k;
  delete = λ k s. (write_at k none s.0, write_at k none s.1);
}

found_at :
    {V : Type 0} (k : String) (v : V) (f : String → Option V) → Found v (write_at k (some v) f k)
found_at k v f = rw (==-self k) kept

other_at :
    {V : Type 0} (j k : String) (v : Option V) (f : String → Option V)
    → j ≢ k
    → write_at k v f j ≡ f j
other_at j k v f ne = ground (arith, string_eq.agrees j k)

gone_at : {V : Type 0} (k : String) (f : String → Option V) → write_at k none f k ≡ none
gone_at k f = rw (==-self k)

stores_all-IsLawful : IsLawful stores_all
stores_all-IsLawful = record {
  get-set = λ k v o s. found_at k v s.0;
  bytes-set = λ k v o s. found_at k v s.1;
  seen-delete = λ k s. rw (gone_at k s.0, gone_at k s.1) refl;
  set_other = λ j k v o s ne. rw (other_at j k (some v) s.0 ne) refl;
  set_bytes_other = λ j k v o s ne. rw (other_at j k (some v) s.1 ne) refl;
  delete_other = λ j k s ne. rw (other_at j k none s.0 ne, other_at j k none s.1 ne) refl;
}

new_cache_with_namespace-IsLawful_example :
    IsLawful (methods (new_cache_with_namespace (caching stores_all) "ns@"))
    × IsConfined "ns@"
        (methods (caching stores_all))
        (methods (new_cache_with_namespace (caching stores_all) "ns@"))
unfolding methods
new_cache_with_namespace-IsLawful_example =
    new_cache_with_namespace-IsLawful (caching stores_all) "ns@" stores_all-IsLawful

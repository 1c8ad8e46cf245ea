-- ===== src/HashMap/Laws.antt =====
-- kernel/util/hash.h: the operations of the map as a whole.
use jsd_os.Prelude.{
  ℕ, ◌≡◌, ap, ◌∙◌, Bool, true, false, not, ◌&&◌, List, [], ◌∷◌, ◌++◌, Option, none, some,
  if◌then◌else◌, arith, Bool-cases, Option-cases, inl, inr, ◌==◌, ℕ_discrete,
}
use jsd_os.HashMap.{
  HashNode, HashMap, find_node, bucket_of, with_bucket, lookup, contains, emplace, remove,
}
use jsd_os.HashMap.Buckets.{
  Compares, Distinct, append_found, append_absent, find-append, find-remove, append-Distinct,
  remove-Distinct,
}

module _ {ℓ} {K D : Type ℓ} (same : K → K → Bool) (laws : Compares same) (hash : K → ℕ) where
  -- No bucket holds a key twice.
  abbrev pub IsMap : HashMap K D → Type ℓ
  IsMap m = (i : ℕ) → Distinct same laws (m.buckets i)

  -- A bucket that another takes the place of is seen by the keys it is for.
  replaced :
      (key key' : K) (m : HashMap K D) (nodes : List (HashNode K D)) (found : Option D)
      → find_node same key' nodes ≡ (
          if same key' key
          then found
          else find_node same key' (m.buckets (bucket_of same hash key m)))
      → find_node same key' (
          if bucket_of same hash key' m == bucket_of same hash key m
          then nodes
          else m.buckets (bucket_of same hash key' m))
        ≡ (if same key' key
            then found
            else find_node same key' (m.buckets (bucket_of same hash key' m)))
  replaced key key' m nodes found e =
      let i : ℕ = bucket_of same hash key m in
      let i' : ℕ = bucket_of same hash key' m in
      elim (ℕ_discrete i' i) [
        | yes here ↦ ground (arith, here, e, ap (λ x. find_node same key' (m.buckets x)) here)
        | no apart ↦ elim (Bool-cases (same key' key)) [
          | inl both ↦ absurd (apart (ap (λ x. bucket_of same hash x m) (laws.equal key' key both)))
          | inr other ↦ ground (arith, apart, other)
        ]
      ]

  -- `emplace` where the key is there already, and where it is not.
  emplace_found :
      (key : K) (value found : D) (m : HashMap K D)
      → lookup same hash key m ≡ some found
      → emplace same hash key value m ≡ (false, m)
  unfolding emplace lookup
  emplace_found key value found m e =
      ap
        (λ o. elim o [
          | none ↦ (false, m)
          | some nodes ↦ (true, with_bucket same hash (bucket_of same hash key m) nodes m)
        ])
        (append_found same laws key value (m.buckets (bucket_of same hash key m)) found e)

  emplace_absent :
      (key : K) (value : D) (m : HashMap K D)
      → lookup same hash key m ≡ none
      → emplace same hash key value m ≡ (
        true,
        with_bucket same hash
            (bucket_of same hash key m)
            (m.buckets (bucket_of same hash key m) ++ (record { key = key; value = value } ∷ []))
            m,
      )
  unfolding emplace lookup
  emplace_absent key value m e =
      ap
        (λ o. elim o [
          | none ↦ (false, m)
          | some nodes ↦ (true, with_bucket same hash (bucket_of same hash key m) nodes m)
        ])
        (append_absent same laws key value (m.buckets (bucket_of same hash key m)) e)

  contains-none :
      (key : K) (m : HashMap K D) → lookup same hash key m ≡ none → contains same hash key m ≡ false
  unfolding contains
  contains-none key m e = ap (λ o. elim o [ none ↦ false | some _ ↦ true ]) e

  contains-some :
      (key : K) (found : D) (m : HashMap K D)
      → lookup same hash key m ≡ some found
      → contains same hash key m ≡ true
  unfolding contains
  contains-some key found m e = ap (λ o. elim o [ none ↦ false | some _ ↦ true ]) e

  lookup_added :
      (key key' : K) (value : D) (m : HashMap K D)
      → lookup same hash key m ≡ none
      → lookup same hash key' (emplace same hash key value m).1
        ≡ (if same key' key then some value else lookup same hash key' m)
  unfolding lookup
  lookup_added key key' value m absent =
      ap (λ r. lookup same hash key' r.1) (emplace_absent key value m absent)
      ∙ replaced key key' m _ (some value)
          (find-append same laws key key' value (m.buckets (bucket_of same hash key m)) absent)

  -- `emplace` succeeds exactly where the map does not contain the key; after it a lookup of the key finds
  -- the new value where it succeeded, and every other lookup is as before. The comparison is to decide
  -- equality.
  pub lookup-emplace :
      (key key' : K) (value : D) (m : HashMap K D)
      → ((emplace same hash key value m).0 ≡ not (contains same hash key m))
        × (lookup same hash key' (emplace same hash key value m).1 ≡ (
            if same key' key && not (contains same hash key m)
            then some value
            else lookup same hash key' m))
  lookup-emplace key key' value m = elim (Option-cases (lookup same hash key m)) [
    | inl absent ↦
        let done = ap (λ r. r.0) (emplace_absent key value m absent) in
        let seen = lookup_added key key' value m absent in
        let outside = contains-none key m absent in
        (ground (arith, done, outside), ground (arith, seen, outside))
    | inr (found, there) ↦
        let refused = emplace_found key value found m there in
        let done = ap (λ r. r.0) refused in
        let seen = ap (λ r. lookup same hash key' r.1) refused in
        let inside = contains-some key found m there in
        (ground (arith, done, inside), ground (arith, seen, inside))
  ]

  -- After `remove`, the key is not found and every other lookup is as before, where no bucket holds a key
  -- twice.
  pub lookup-remove :
      (key key' : K) (m : HashMap K D)
      → IsMap m
      → lookup same hash key' (remove same hash key m)
        ≡ (if same key' key then none else lookup same hash key' m)
  unfolding lookup remove
  lookup-remove key key' m o =
      replaced key key' m _ none
        (find-remove same laws key key' (m.buckets (bucket_of same hash key m)) (o _))

  with_bucket-IsMap :
      (i : ℕ) (nodes : List (HashNode K D)) (m : HashMap K D)
      → Distinct same laws nodes
      → IsMap m
      → IsMap (with_bucket same hash i nodes m)
  with_bucket-IsMap i nodes m n o j = elim (ℕ_discrete j i) [
    | yes here ↦ ground (arith, here, n)
    | no apart ↦ ground (arith, apart, o j)
  ]

  emplace-IsMap :
      (key : K) (value : D) (m : HashMap K D) → IsMap m → IsMap (emplace same hash key value m).1
  unfolding lookup
  emplace-IsMap key value m o = elim (Option-cases (lookup same hash key m)) [
    | inl absent ↦ rw (emplace_absent key value m absent) (
        with_bucket-IsMap (bucket_of same hash key m) _ m
          (append-Distinct same laws key value (m.buckets (bucket_of same hash key m)) absent (o _))
          o)
    | inr (found, there) ↦ rw (emplace_found key value found m there) o
  ]

  -- `emplace` and `remove` keep it that no bucket holds a key twice.
  pub operations-IsMap :
      (key : K) (value : D) (m : HashMap K D)
      → IsMap m
      → IsMap (emplace same hash key value m).1 × IsMap (remove same hash key m)
  unfolding remove
  operations-IsMap key value m o = (
    emplace-IsMap key value m o,
    with_bucket-IsMap (bucket_of same hash key m) _ m
        (remove-Distinct same laws key (m.buckets (bucket_of same hash key m)) (o _)) o,
  )

-- ===== src/HashMap.antt =====
-- kernel/util/hash.h: the chained hash map. A bucket is the list of its nodes; the buckets are a function
-- of the index, of which the map uses those below `num_buckets`. The key's comparison is a parameter, as
-- is the hash of the key's type, one of the two functions `hash` of the class.
mod Examples
use jsd_os.Prelude.{
  ℕ, zero, suc, ◌+◌, ◌-◌, ◌*◌, ◌/◌, ◌%◌, ◌^◌, bit_and, bit_or, bit_xor, Bool, true, false, not,
  List, [], ◌∷◌, Option, none, some, ◌==◌, if◌then◌else◌,
}
use jsd_os.Prelude.Words.{u32, add32, sub32, mul32, ◌<<<◌, ◌>>>◌}
pub mod Buckets
pub mod Laws

-- `hash` of an unsigned number, and of a name.
pub mix : ℕ → ℕ
unfolding mul32
mix x = mul32 (bit_xor (x >>> 16) x) 0x45d_9f3b

pub hash_number : ℕ → ℕ
unfolding mix
hash_number x = let y : ℕ = mix (mix x) in bit_xor (y >>> 16) y

-- One character of the loop over a name; `h &= ~g` clears the top four bits.
pub hash_step : ℕ → ℕ → ℕ
unfolding add32
hash_step h c =
    let shifted : ℕ = add32 (u32 (h <<< 4)) c in
    let g : ℕ = bit_and shifted 0xf000_0000 in
    let folded : ℕ = if g == 0 then shifted else bit_xor shifted (g >>> 24) in
    bit_and folded (0xffff_ffff - g)

pub hash_from : ℕ → List ℕ → ℕ
unfolding hash_step
hash_from h [] = h
hash_from h (c ∷ name) = hash_from (hash_step h c) name

pub hash_name : List ℕ → ℕ
unfolding hash_from
hash_name name = hash_from 0 name

pub record HashNode {ℓ} (K : Type ℓ) (D : Type ℓ) : Type ℓ where
  pub key : K
  pub value : D

pub record HashMap {ℓ} (K : Type ℓ) (D : Type ℓ) : Type ℓ where
  pub num_buckets : ℕ
  pub buckets : ℕ → List (HashNode K D)

module _ {ℓ} {K D : Type ℓ} where
  -- The constructor; its assertion is that the number of buckets is a power of two.
  pub hash_map : ℕ → HashMap K D
  hash_map num_buckets = record { num_buckets = num_buckets; buckets = λ _. [] }

  module _ (same : K → K → Bool) where
    -- The walks along one bucket: to a node with the key, to the end to append one, and past one.
    pub find_node : K → List (HashNode K D) → Option D
    find_node key [] = none
    find_node key (node ∷ nodes) =
        let rest : Option D = find_node key nodes in
        if same key node.key then some node.value else rest

    pub append_node : K → D → List (HashNode K D) → Option (List (HashNode K D))
    append_node key value [] = some (record { key = key; value = value } ∷ [])
    append_node key value (node ∷ nodes) =
        let rest : Option (List (HashNode K D)) = append_node key value nodes in
        if same key node.key
        then none
        else elim rest [ none ↦ none | some changed ↦ some (node ∷ changed) ]

    pub remove_node : K → List (HashNode K D) → List (HashNode K D)
    remove_node key [] = []
    remove_node key (node ∷ nodes) =
        let rest : List (HashNode K D) = remove_node key nodes in
        if same key node.key then nodes else node ∷ rest

    module _ (hash : K → ℕ) where
      pub bucket_of : K → HashMap K D → ℕ
      unfolding sub32
      bucket_of key m = bit_and (hash key) (sub32 m.num_buckets 1)

      abbrev pub with_bucket : ℕ → List (HashNode K D) → HashMap K D → HashMap K D
      with_bucket i nodes m = record m { buckets = λ j. if j == i then nodes else m.buckets j }

      pub lookup : K → HashMap K D → Option D
      unfolding find_node bucket_of
      lookup key m = find_node key (m.buckets (bucket_of key m))

      pub contains : K → HashMap K D → Bool
      unfolding lookup
      contains key m = elim (lookup key m) [ none ↦ false | some _ ↦ true ]

      -- `emplace` returns a null pointer where the key is there already.
      pub emplace : K → D → HashMap K D → Bool × HashMap K D
      unfolding append_node bucket_of
      emplace key value m =
          let i : ℕ = bucket_of key m in
          elim (append_node key value (m.buckets i)) [
            | none ↦ (false, m)
            | some nodes ↦ (true, with_bucket i nodes m)
          ]

      pub insert : K → D → HashMap K D → Bool × HashMap K D
      unfolding emplace
      insert key value m = emplace key value m

      pub remove : K → HashMap K D → HashMap K D
      unfolding remove_node bucket_of
      remove key m = let i : ℕ = bucket_of key m in with_bucket i (remove_node key (m.buckets i)) m

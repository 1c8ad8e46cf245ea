-- ===== src/HashMap/Buckets.antt =====
-- kernel/util/hash.h: the walks along one bucket.
use jsd_os.Prelude.{
  ◌≡◌, refl, ap, sym, ◌∙◌, Bool, true, false, List, [], ◌∷◌, none, some, if◌then◌else◌, arith,
  Bool-cases, inl, inr, ◌++◌,
}
use jsd_os.HashMap.{HashNode, find_node, append_node, remove_node}

-- A comparison that decides equality.
pub record Compares {ℓ} {K : Type ℓ} (same : K → K → Bool) : Type ℓ where
  pub itself : (a : K) → same a a ≡ true
  pub equal : (a b : K) → same a b ≡ true → a ≡ b

module _ {ℓ} {K D : Type ℓ} (same : K → K → Bool) (laws : Compares same) where
  -- No key twice.
  abbrev pub Distinct : List (HashNode K D) → Type ℓ
  Distinct [] = Unit
  Distinct (n ∷ ns) = (find_node same n.key ns ≡ none) × Distinct ns

  -- A node is appended where the key is not found, and only there.
  pub append_found :
      (key : K) (value : D) (nodes : List (HashNode K D)) (found : D)
      → find_node same key nodes ≡ some found
      → append_node same key value nodes ≡ none
  unfolding find_node append_node
  append_found key value [] found e = ground arith
  append_found key value (n ∷ ns) found e = elim (Bool-cases (same key n.key)) [
    | inl hit ↦ ground (arith, hit)
    | inr miss ↦ ground (arith, miss, append_found key value ns found)
  ]

  pub append_absent :
      (key : K) (value : D) (nodes : List (HashNode K D))
      → find_node same key nodes ≡ none
      → append_node same key value nodes
        ≡ some (nodes ++ (record { key = key; value = value } ∷ []))
  unfolding find_node append_node
  append_absent key value [] e = refl
  append_absent key value (n ∷ ns) e = elim (Bool-cases (same key n.key)) [
    | inl hit ↦ ground (arith, hit)
    | inr miss ↦ ground (arith, miss, append_absent key value ns)
  ]

  pub find-append :
      (key key' : K) (value : D) (nodes : List (HashNode K D))
      → find_node same key nodes ≡ none
      → find_node same key' (nodes ++ (record { key = key; value = value } ∷ []))
        ≡ (if same key' key then some value else find_node same key' nodes)
  unfolding find_node
  find-append key key' value [] e = refl
  find-append key key' value (n ∷ ns) e = elim (Bool-cases (same key' n.key)) [
    | inl hit ↦ elim (Bool-cases (same key' key)) [
      | inl both ↦
          let k : key' ≡ n.key = laws.equal key' n.key hit in
          let k' : key' ≡ key = laws.equal key' key both in
          ground (arith, ap (λ x. same x n.key) k', hit)
      | inr one ↦ ground (arith, hit, one)
    ]
    | inr miss ↦ ground (arith, miss, find-append key key' value ns, Bool-cases (same key n.key))
  ]

  -- A removed key is found no more, and the other keys are found as before.
  pub find-remove :
      (key key' : K) (nodes : List (HashNode K D))
      → Distinct nodes
      → find_node same key' (remove_node same key nodes)
        ≡ (if same key' key then none else find_node same key' nodes)
  unfolding find_node remove_node
  find-remove key key' [] o = ground arith
  find-remove key key' (n ∷ ns) (fresh, o) = elim (Bool-cases (same key n.key)) [
    | inl hit ↦
        let at : key ≡ n.key = laws.equal key n.key hit in
        elim (Bool-cases (same key' key)) [
          | inl both ↦
              let gone : find_node same key' ns ≡ none =
                ap (λ x. find_node same x ns) (laws.equal key' key both ∙ at) ∙ fresh in
              ground (arith, hit, both, gone)
          | inr apart ↦
              let other : same key' n.key ≡ false = ap (same key') (sym at) ∙ apart in
              ground (arith, hit, apart, other)
        ]
    | inr miss ↦ elim (Bool-cases (same key' key)) [
      | inl both ↦
          let other : same key' n.key ≡ false =
            ap (λ x. same x n.key) (laws.equal key' key both) ∙ miss in
          ground (arith, miss, both, other, find-remove key key' ns o)
      | inr apart ↦
          ground (arith, miss, apart, find-remove key key' ns o, Bool-cases (same key' n.key))
    ]
  ]

  pub append-Distinct :
      (key : K) (value : D) (nodes : List (HashNode K D))
      → find_node same key nodes ≡ none
      → Distinct nodes
      → Distinct (nodes ++ (record { key = key; value = value } ∷ []))
  unfolding find_node
  append-Distinct key value [] e o = (refl, tt)
  append-Distinct key value (n ∷ ns) e (fresh, o) = elim (Bool-cases (same key n.key)) [
    | inl hit ↦ absurd (ground (arith, hit))
    | inr miss ↦
        let absent : find_node same key ns ≡ none = ground (arith, miss) in
        let other : same n.key key ≡ false = elim (Bool-cases (same n.key key)) [
          | inl hit ↦ absurd (
              ground
                (arith, miss, laws.itself n.key, ap (λ x. same x n.key) (laws.equal n.key key hit)))
          | inr no_hit ↦ no_hit
        ] in
        (
          ground (arith, find-append key n.key value ns absent, other, fresh),
          append-Distinct key value ns absent o,
        )
  ]

  pub remove-Distinct :
      (key : K) (nodes : List (HashNode K D))
      → Distinct nodes
      → Distinct (remove_node same key nodes)
  unfolding remove_node
  remove-Distinct key [] o = tt
  remove-Distinct key (n ∷ ns) (fresh, o) =
      let kept = find-remove key n.key ns o in
      ground (
        arith,
        kept,
        fresh,
        o,
        remove-Distinct key ns o,
        Bool-cases (same key n.key),
        Bool-cases (same n.key key),
      )

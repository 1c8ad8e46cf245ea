-- ===== src/Ext2/Bitmap.antt =====
-- drivers/formats/ext2.cpp: `find_free_and_mark`.
use native.Mathlib.Nat.{pow-suc, one-le-pow}
use jsd_os.Prelude.{
  ℕ, zero, suc, ◌+◌, ◌*◌, ◌/◌, ◌%◌, ◌^◌, ◌≤◌, ◌<◌, ◌≡◌, inl, inr, ap, sym, ◌∙◌, max, bit_and,
  bit_or, Bool, true, false, not, ◌||◌, Option, none, some, List, [], ◌∷◌, ◌==◌, if◌then◌else◌,
  length, length-set, get_or, set, Bool-cases, ℕ_discrete, subst, arith,
}
use jsd_os.Prelude.Words.{◌<<<◌}
use jsd_os.Prelude.Bits.{bit_and_halves, bit_or_halves, bit_or-zero, bit_and_low}
use jsd_os.Ext2.{find_free_from, find_free_and_mark}

-- The bit of a number.
bit : ℕ → ℕ → ℕ
bit x zero = x % 2
bit x (suc k) = bit (x / 2) k

bit_and-pow : (x k : ℕ) → bit_and x (2 ^ k) ≡ bit x k * 2 ^ k
unfolding bit
bit_and-pow x zero = bit_and_low 1 x ∙ omega arith
bit_and-pow x (suc k) =
    let twice = pow-suc 2 k in
    let half : 2 ^ suc k / 2 ≡ 2 ^ k = omega (arith, twice) in
    let product : bit (x / 2) k * 2 ^ suc k ≡ bit (x / 2) k * 2 ^ k * 2 =
      ap (◌*◌ (bit (x / 2) k)) twice ∙ grind arith in
    bit_and_halves x (2 ^ suc k) ∙ rw (half, bit_and-pow (x / 2) k) (omega (arith, twice, product))

bit-or_pow : (x i k : ℕ) → bit (bit_or x (2 ^ i)) k ≡ (if k == i then 1 else bit x k)
unfolding bit
bit-or_pow x zero zero = omega (arith, bit_or_halves x 1)
bit-or_pow x zero (suc k) =
    let half : bit_or x (2 ^ 0) / 2 ≡ x / 2 =
      omega (arith, bit_or_halves x 1, bit_or-zero (x / 2)) in
    ap (λ y. bit y k) half ∙ ground arith
bit-or_pow x (suc i) zero = ground (arith, pow-suc 2 i, bit_or_halves x (2 ^ suc i))
bit-or_pow x (suc i) (suc k) =
    let half : bit_or x (2 ^ suc i) / 2 ≡ bit_or (x / 2) (2 ^ i) =
      (let h : 2 ^ suc i / 2 ≡ 2 ^ i = omega (arith, pow-suc 2 i) in
        let whole : bit_or x (2 ^ suc i)
            ≡ bit_or (x / 2) (2 ^ i) * 2 + max (x % 2) (2 ^ suc i % 2) =
          bit_or_halves x (2 ^ suc i)
          ∙ ap (λ y. bit_or (x / 2) y * 2 + max (x % 2) (2 ^ suc i % 2)) h in
        omega (arith, whole)) in
    ap (λ y. bit y k) half ∙ bit-or_pow (x / 2) i k ∙ ground arith

-- Is bit `j` of a bitmap set?
abbrev pub is_set : List ℕ → ℕ → Bool
is_set arr j = not (bit_and (get_or arr (j / 8) 0) (1 <<< (j % 8)) == 0)

get_or-set :
    (arr : List ℕ) (i v j : ℕ)
    → i < length arr
    → get_or (set arr i v) j 0 ≡ (if j == i then v else get_or arr j 0)
get_or-set [] i v j h = ground arith
get_or-set (b ∷ rest) zero v zero h = ground arith
get_or-set (b ∷ rest) zero v (suc j) h = ground arith
get_or-set (b ∷ rest) (suc i) v zero h = ground arith
get_or-set (b ∷ rest) (suc i) v (suc j) h = get_or-set rest i v j (omega (arith, h)) ∙ ground arith

product-zero : (b p : ℕ) → 0 < p → (b * p == 0) ≡ (b == 0)
product-zero zero p pos = ground arith
product-zero (suc b) p pos =
    let grown : suc b * p ≡ b * p + p = grind arith in ground (arith, grown, pos)

test-bit : (x k : ℕ) → not (bit_and x (1 <<< k) == 0) ≡ not (bit x k == 0)
test-bit x k =
    ap (λ y. not (bit_and x y == 0)) {x = 1 <<< k} {y = 2 ^ k} (omega arith)
    ∙ ap (λ y. not (y == 0)) (bit_and-pow x k)
    ∙ ap not (product-zero (bit x k) (2 ^ k) (one-le-pow k 2 (omega arith)))

marked :
    (arr : List ℕ) (i j : ℕ)
    → i / 8 < length arr
    → is_set (set arr (i / 8) (bit_or (get_or arr (i / 8) 0) (1 <<< (i % 8)))) j
      ≡ (j == i || is_set arr j)
marked arr i j inside =
    let byte : ℕ = get_or arr (i / 8) 0 in
    let after : ℕ = bit_or byte (1 <<< (i % 8)) in
    let shifted : after ≡ bit_or byte (2 ^ (i % 8)) =
      ap (bit_or byte) {x = 1 <<< (i % 8)} {y = 2 ^ (i % 8)} (omega arith) in
    let changed : bit after (j % 8) ≡ (if j % 8 == i % 8 then 1 else bit byte (j % 8)) =
      ap (λ y. bit y (j % 8)) shifted ∙ bit-or_pow byte (i % 8) (j % 8) in
    let here : is_set (set arr (i / 8) after) j
        ≡ not (bit (if j / 8 == i / 8 then after else get_or arr (j / 8) 0) (j % 8) == 0) =
      test-bit _ (j % 8)
      ∙ ap (λ y. not (bit y (j % 8) == 0)) (get_or-set arr (i / 8) after (j / 8) inside) in
    here ∙ elim (ℕ_discrete (j / 8) (i / 8)) [
      | yes same ↦
          let test : (j / 8 == i / 8) ≡ true = ground (arith, same) in
          let old : is_set arr j ≡ not (bit byte (j % 8) == 0) =
            test-bit (get_or arr (j / 8) 0) (j % 8)
            ∙ ap (λ q. not (bit (get_or arr q 0) (j % 8) == 0)) same in
          ap (λ b. not (bit (if b then after else get_or arr (j / 8) 0) (j % 8) == 0)) test
          ∙ ap (λ y. not (y == 0)) changed
          ∙ ground (arith, same, old)
      | no other ↦
          let test : (j / 8 == i / 8) ≡ false = ground (arith, other) in
          let differ : (j == i) ≡ false = ground (arith, other) in
          ap (λ b. not (bit (if b then after else get_or arr (j / 8) 0) (j % 8) == 0)) test
          ∙ sym (test-bit (get_or arr (j / 8) 0) (j % 8))
          ∙ ap (λ b. b || is_set arr j) (sym differ)
    ]

-- What a search of a bitmap comes to.
pub data Search (arr : List ℕ) (bits : ℕ) : Option (ℕ × List ℕ) → Type 0 where
  full : ((j : ℕ) → j < bits → is_set arr j ≡ true) → Search arr bits none
  marks :
      (i : ℕ) (after : List ℕ)
      → i < bits
      → is_set arr i ≡ false
      → ((j : ℕ) → j < i → is_set arr j ≡ true)
      → ((j : ℕ) → is_set after j ≡ (j == i || is_set arr j))
      → length after ≡ length arr
      → Search arr bits (some (i, after))

find_from_lem :
    (left i bits : ℕ) (arr : List ℕ)
    → i + left ≡ bits
    → bits ≤ 8 * length arr
    → ((j : ℕ) → j < i → is_set arr j ≡ true)
    → Search arr bits (find_free_from left i arr)
unfolding find_free_from
find_from_lem zero i bits arr whole room before =
    full (λ j small. before j (omega (arith, whole, small)))
find_from_lem (suc left) i bits arr whole room before = elim (Bool-cases (is_set arr i)) [
  | inl taken ↦
      let test : (bit_and (get_or arr (i / 8) 0) (1 <<< (i % 8)) == 0) ≡ false =
        ground (arith, taken) in
      subst (Search arr bits)
        (sym (
          ap
            (λ b.
              if b
              then some (i, set arr (i / 8) (bit_or (get_or arr (i / 8) 0) (1 <<< (i % 8))))
              else find_free_from left (i + 1) arr)
            test))
        (find_from_lem left (i + 1) bits arr (omega (arith, whole)) room (λ j small.
          elim (ℕ_discrete j i) [
            | yes e ↦ ap (is_set arr) e ∙ taken
            | no n ↦ before j (omega (arith, small, n))
          ]))
  | inr clear ↦
      let test : (bit_and (get_or arr (i / 8) 0) (1 <<< (i % 8)) == 0) ≡ true =
        ground (arith, clear) in
      subst (Search arr bits)
        (sym (
          ap
            (λ b.
              if b
              then some (i, set arr (i / 8) (bit_or (get_or arr (i / 8) 0) (1 <<< (i % 8))))
              else find_free_from left (i + 1) arr)
            test))
        (marks i _ (omega (arith, whole)) clear before
          (λ j. marked arr i j (omega (arith, whole, room))) (length-set arr (i / 8) _))
]

pub find_free_and_mark-Search :
    (arr : List ℕ) (bits : ℕ)
    → bits ≤ 8 * length arr
    → Search arr bits (find_free_and_mark arr bits)
unfolding find_free_and_mark
find_free_and_mark-Search arr bits room =
    find_from_lem bits 0 bits arr (omega arith) room (λ j small. absurd (omega (arith, small)))

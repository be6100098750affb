-- ===== src/Latency/Sorting.antt =====
-- Sorting by insertion, for `report` of include/LatencyTracker.h: order, and the rank of an entry.
use lock_free_spmc_queue_dis.Common.{
  ℕ, zero, suc, ◌+◌, ◌<◌, ◌≤◌, ◌≡◌, refl, some, List, [], ◌∷◌, arith, length, get_elem?, leb, ltb,
  le-cases, inl, inr, if◌then◌else◌, false, le→leb,
}
use lock_free_spmc_queue_dis.Latency.{insert, sort}

abbrev pub AtLeast : ℕ → List ℕ → Type 0
AtLeast x [] = Unit
AtLeast x (y ∷ ys) = (x ≤ y) × AtLeast x ys

abbrev pub Sorted : List ℕ → Type 0
Sorted [] = Unit
Sorted (x ∷ xs) = AtLeast x xs × Sorted xs

-- How many samples are at or below, and how many are below, a value.
abbrev pub count_le : ℕ → List ℕ → ℕ
count_le v [] = 0
count_le v (x ∷ xs) = (if leb x v then 1 else 0) + count_le v xs

abbrev pub count_lt : ℕ → List ℕ → ℕ
count_lt v [] = 0
count_lt v (x ∷ xs) = (if ltb x v then 1 else 0) + count_lt v xs

AtLeast-le : (x y : ℕ) (ys : List ℕ) → x ≤ y → AtLeast y ys → AtLeast x ys
AtLeast-le x y [] h a = tt
AtLeast-le x y (z ∷ zs) h a = (omega (arith, a.0), AtLeast-le x y zs h a.1)

AtLeast-insert : (x y : ℕ) (ys : List ℕ) → x ≤ y → AtLeast x ys → AtLeast x (insert y ys)
AtLeast-insert x y [] h a = (h, tt)
AtLeast-insert x y (z ∷ zs) h a = elim (le-cases y z) [
  | inl le ↦ rw (le→leb y z le) (h, a)
  | inr gt ↦ let test : leb y z ≡ false = ground arith in rw test (a.0, AtLeast-insert x y zs h a.1)
]

insert-Sorted : (x : ℕ) (xs : List ℕ) → Sorted xs → Sorted (insert x xs)
insert-Sorted x [] s = (tt, tt)
insert-Sorted x (y ∷ ys) s = elim (le-cases x y) [
  | inl le ↦ rw (le→leb x y le) ((le, AtLeast-le x y ys le s.0), s)
  | inr gt ↦
      let test : leb x y ≡ false = ground arith in
      rw test (AtLeast-insert y x ys (omega arith) s.0, insert-Sorted x ys s.1)
]

pub sort-Sorted : (xs : List ℕ) → Sorted (sort xs)
sort-Sorted [] = tt
sort-Sorted (x ∷ xs) = insert-Sorted x (sort xs) (sort-Sorted xs)

count_le-insert :
    (v x : ℕ) (xs : List ℕ) → count_le v (insert x xs) ≡ (if leb x v then 1 else 0) + count_le v xs
count_le-insert v x [] = refl
count_le-insert v x (y ∷ ys) = ground (arith, count_le-insert v x ys)

count_lt-insert :
    (v x : ℕ) (xs : List ℕ) → count_lt v (insert x xs) ≡ (if ltb x v then 1 else 0) + count_lt v xs
count_lt-insert v x [] = refl
count_lt-insert v x (y ∷ ys) = ground (arith, count_lt-insert v x ys)

length-insert : (x : ℕ) (xs : List ℕ) → length (insert x xs) ≡ suc (length xs)
length-insert x [] = refl
length-insert x (y ∷ ys) = ground (arith, length-insert x ys)

pub count_le-sort : (v : ℕ) (xs : List ℕ) → count_le v (sort xs) ≡ count_le v xs
count_le-sort v [] = refl
count_le-sort v (x ∷ xs) = omega (arith, count_le-insert v x (sort xs), count_le-sort v xs)

pub count_lt-sort : (v : ℕ) (xs : List ℕ) → count_lt v (sort xs) ≡ count_lt v xs
count_lt-sort v [] = refl
count_lt-sort v (x ∷ xs) = omega (arith, count_lt-insert v x (sort xs), count_lt-sort v xs)

pub length-sort : (xs : List ℕ) → length (sort xs) ≡ length xs
length-sort [] = refl
length-sort (x ∷ xs) = omega (arith, length-insert x (sort xs), length-sort xs)

AtLeast-get_elem? : (x y : ℕ) (ys : List ℕ) (i : ℕ) → AtLeast x ys → get_elem? ys i ≡ some y → x ≤ y
AtLeast-get_elem? x y [] i a e = cc
AtLeast-get_elem? x y (z ∷ zs) zero a e = let same : z ≡ y = cc in omega (arith, a.0)
AtLeast-get_elem? x y (z ∷ zs) (suc i) a e = AtLeast-get_elem? x y zs i a.1 e

count_lt-AtLeast : (v x : ℕ) (xs : List ℕ) → v ≤ x → AtLeast x xs → count_lt v xs ≡ 0
count_lt-AtLeast v x [] h a = refl
count_lt-AtLeast v x (y ∷ ys) h a = ground (arith, count_lt-AtLeast v x ys h a.1, a.0)

-- In a sorted list the entries rise with their index.
pub Sorted-mono :
    (xs : List ℕ) (i j a b : ℕ)
    → Sorted xs
    → i ≤ j
    → get_elem? xs i ≡ some a
    → get_elem? xs j ≡ some b
    → a ≤ b
Sorted-mono [] i j a b s h e f = cc
Sorted-mono (x ∷ xs) zero zero a b s h e f = let same : a ≡ b = cc in omega arith
Sorted-mono (x ∷ xs) zero (suc j) a b s h e f =
    let same : x ≡ a = cc in omega (arith, AtLeast-get_elem? x b xs j s.0 f)
Sorted-mono (x ∷ xs) (suc i) zero a b s h e f = absurd (omega arith)
Sorted-mono (x ∷ xs) (suc i) (suc j) a b s h e f = Sorted-mono xs i j a b s.1 (omega arith) e f

-- Entry `i` of a sorted list has more than `i` entries at or below it, and no more than `i` below.
pub Sorted-rank :
    (xs : List ℕ) (i v : ℕ)
    → Sorted xs
    → get_elem? xs i ≡ some v
    → (i < count_le v xs) × (count_lt v xs ≤ i)
Sorted-rank [] i v s e = cc
Sorted-rank (x ∷ xs) zero v s e =
    let same : x ≡ v = cc in ground (arith, count_lt-AtLeast v x xs (omega arith) s.0)
Sorted-rank (x ∷ xs) (suc i) v s e =
    let rest = Sorted-rank xs i v s.1 e in
    ground (arith, rest.0, rest.1, AtLeast-get_elem? x v xs i s.0 e)

-- ===== src/Config/Intervals/Sorting.antt =====
-- The sort gives a sorted list with the same members.
use kava_proxy_service.Base.{
  ℕ, zero, suc, ◌≤◌, ◌<◌, List, [], ◌∷◌, ◌≡◌, refl, ◌↔◌, inl, inr, All, Any, length, arith, sym,
}
use kava_proxy_service.Config.Intervals.{insert_sorted, sort, at}

abbrev IsSorted : List ℕ → Type 0
IsSorted [] = Unit
IsSorted (x ∷ xs) = All (λ y. x ≤ y) xs × IsSorted xs

All-le : (x y : ℕ) (ys : List ℕ) → x ≤ y → All (λ z. y ≤ z) ys → All (λ z. x ≤ z) ys
All-le x y [] le a = tt
All-le x y (z ∷ ys) le a = (omega arith, All-le x y ys le a.1)

All-insert_sorted :
    (x y : ℕ) (ys : List ℕ) → y ≤ x → All (λ z. y ≤ z) ys → All (λ z. y ≤ z) (insert_sorted x ys)
unfolding insert_sorted
All-insert_sorted x y [] le a = (le, tt)
All-insert_sorted x y (z ∷ ys) le a = ground (arith, All-insert_sorted x y ys le a.1)

insert_sorted-IsSorted : (x : ℕ) (ys : List ℕ) → IsSorted ys → IsSorted (insert_sorted x ys)
unfolding insert_sorted
insert_sorted-IsSorted x [] s = (tt, tt)
insert_sorted-IsSorted x (y ∷ ys) s =
    ground (arith, All-le x y ys, All-insert_sorted x y ys, insert_sorted-IsSorted x ys s.1)

sort-IsSorted : (xs : List ℕ) → IsSorted (sort xs)
unfolding sort
sort-IsSorted [] = tt
sort-IsSorted (x ∷ xs) = insert_sorted-IsSorted x (sort xs) (sort-IsSorted xs)

Any-insert_sorted :
    (k x : ℕ) (ys : List ℕ) → Any (λ z. k ≡ z) (insert_sorted x ys) ↔ Any (λ z. k ≡ z) (x ∷ ys)
unfolding insert_sorted
Any-insert_sorted k x [] = ground arith
Any-insert_sorted k x (y ∷ ys) = ground (arith, Any-insert_sorted k x ys)

-- The sort keeps the members.
pub Any-sort : (k : ℕ) (xs : List ℕ) → Any (λ z. k ≡ z) (sort xs) ↔ Any (λ z. k ≡ z) xs
unfolding sort
Any-sort k [] = ground arith
Any-sort k (x ∷ xs) = ground (arith, Any-insert_sorted k x (sort xs), Any-sort k xs)

All-at : (x : ℕ) (ys : List ℕ) (i : ℕ) → All (λ z. x ≤ z) ys → i < length ys → x ≤ at ys i
All-at x [] i a h = elim h [ ]
All-at x (y ∷ ys) zero a h = a.0
All-at x (y ∷ ys) (suc i) a h = All-at x ys i a.1 (omega arith)

at_mono : (xs : List ℕ) (i j : ℕ) → IsSorted xs → i ≤ j → j < length xs → at xs i ≤ at xs j
at_mono [] i j s le h = elim h [ ]
at_mono (x ∷ xs) zero zero s le h = omega arith
at_mono (x ∷ xs) zero (suc j) s le h = All-at x xs j s.0 (omega arith)
at_mono (x ∷ xs) (suc i) zero s le h = absurd (omega arith)
at_mono (x ∷ xs) (suc i) (suc j) s le h = at_mono xs i j s.1 (omega arith) (omega arith)

-- In a sorted list a later position holds no smaller number.
pub at-sort_mono :
    (xs : List ℕ) (i j : ℕ) → i ≤ j → j < length (sort xs) → at (sort xs) i ≤ at (sort xs) j
at-sort_mono xs i j = at_mono (sort xs) i j (sort-IsSorted xs)

-- A member stands at some position, and what stands at a position is a member.
pub position_of :
    (k : ℕ) (xs : List ℕ) → Any (λ z. k ≡ z) xs → (i : ℕ) × (i < length xs) × (at xs i ≡ k)
position_of k [] m = absurd m
position_of k (x ∷ xs) (inl e) = (0, omega arith, sym e)
position_of k (x ∷ xs) (inr m) = let (i, lt, e) = position_of k xs m in (suc i, omega arith, e)

pub Any-at : (xs : List ℕ) (i : ℕ) → i < length xs → Any (λ z. at xs i ≡ z) xs
Any-at [] i h = elim h [ ]
Any-at (x ∷ xs) zero h = inl refl
Any-at (x ∷ xs) (suc i) h = inr (Any-at xs i (omega arith))

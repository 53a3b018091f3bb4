-- ===== src/Config/Intervals/Search.antt =====
-- sort.Search finds the first index at which a monotone test holds; the fuel suffices.
use kava_proxy_service.Base.{
  ℕ, zero, suc, ◌+◌, ◌-◌, ◌/◌, ◌≤◌, ◌<◌, Bool, true, false, ◌≡◌, inl, inr, ltb, arith, Bool-cases,
}
use kava_proxy_service.Config.Intervals.{search_loop, search}

-- The test fails below `i`, and holds from `i` up to `n`.
pub record IsFirst (n : ℕ) (f : ℕ → Bool) (i : ℕ) : Type 0 where
  pub bound : i ≤ n
  pub below : (k : ℕ) → k < i → f k ≡ false
  pub above : (k : ℕ) → i ≤ k → k < n → f k ≡ true

module _ (n : ℕ) (f : ℕ → Bool)
    (monotone : (a b : ℕ) → a ≤ b → b < n → f a ≡ true → f b ≡ true) where
  record Inv (i j : ℕ) : Type 0 where
    ordered : i ≤ j
    inside : j ≤ n
    below : (k : ℕ) → k < i → f k ≡ false
    above : (k : ℕ) → j ≤ k → k < n → f k ≡ true

  below_false : (m k : ℕ) → m < n → f m ≡ false → k ≤ m → f k ≡ false
  below_false m k lt e le = elim (Bool-cases (f k)) [
    | inl t ↦ ground (arith, monotone k m le lt t)
    | inr h ↦ h
  ]

  Inv-left : (i j : ℕ) → i < j → f ((i + j) / 2) ≡ true → Inv i j → Inv i ((i + j) / 2)
  Inv-left i j lt t inv = record {
    ordered = omega arith;
    inside = omega (arith, inv.inside);
    below = inv.below;
    above = λ k le kn. monotone ((i + j) / 2) k le kn t;
  }

  Inv-right : (i j : ℕ) → i < j → f ((i + j) / 2) ≡ false → Inv i j → Inv ((i + j) / 2 + 1) j
  Inv-right i j lt t inv = record {
    ordered = omega arith;
    inside = inv.inside;
    below = λ k kl. below_false ((i + j) / 2) k (omega (arith, inv.inside)) t (omega arith);
    above = inv.above;
  }

  search_loop-IsFirst :
      (fuel i j : ℕ) → j - i ≤ fuel → Inv i j → IsFirst n f (search_loop fuel f i j)
  unfolding search_loop
  search_loop-IsFirst zero i j small inv = record {
    bound = omega arith;
    below = inv.below;
    above = λ k le lt. inv.above k (omega arith) lt;
  }
  search_loop-IsFirst (suc fuel) i j small inv = elim (Bool-cases (ltb i j)) [
    | inr e ↦
        rw (e, search_loop)
          (record {
            bound = omega arith;
            below = inv.below;
            above = λ k le lt. inv.above k (ground arith) lt;
          })
    | inl e ↦ elim (Bool-cases (f ((i + j) / 2))) [
      | inl t ↦
          rw (e, t, search_loop)
            (search_loop-IsFirst fuel i ((i + j) / 2) (ground arith)
              (Inv-left i j (ground arith) t inv))
      | inr t ↦
          rw (e, t, search_loop)
            (search_loop-IsFirst fuel ((i + j) / 2 + 1) j (ground arith)
              (Inv-right i j (ground arith) t inv))
    ]
  ]

-- sort.Search gives the first index at which the test holds, if the test never fails again.
pub search-IsFirst :
    (n : ℕ) (f : ℕ → Bool)
    → ((a b : ℕ) → a ≤ b → b < n → f a ≡ true → f b ≡ true)
    → IsFirst n f (search n f)
unfolding search
search-IsFirst n f monotone = search_loop-IsFirst n f monotone n 0 n (omega arith) (record {
  ordered = omega arith;
  inside = omega arith;
  below = λ k lt. absurd (omega arith);
  above = λ k le lt. absurd (omega arith);
})

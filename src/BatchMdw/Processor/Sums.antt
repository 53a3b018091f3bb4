-- ===== src/BatchMdw/Processor/Sums.antt =====
-- The sums over the goroutines' actions (cache hits, errors) do not depend on their order.
use kava_proxy_service.Base.{
  ℕ, zero, suc, ◌+◌, ◌≤◌, ◌<◌, List, [], ◌∷◌, ◌++◌, ◌≡◌, refl, sym, ap, ◌∙◌, ◌==◌, ltb,
  if◌then◌else◌, length, arith, Bool-cases, inl, inr,
}
use kava_proxy_service.BatchMdw.Processor.{
  SubRequest, Action, goroutine, actions_of, goroutine_at, IsInterleaving,
}

-- A weight of actions, added up over a goroutine, over a sequence, and over all goroutines.
module _ (w : Action → ℕ) where
  abbrev pub weight : List Action → ℕ
  weight [] = 0
  weight (a ∷ rest) = w a + weight rest

  abbrev pub weight_run : List (ℕ × Action) → ℕ
  weight_run [] = 0
  weight_run ((_, a) ∷ trace) = w a + weight_run trace

  abbrev pub weight_all : List SubRequest → ℕ
  weight_all [] = 0
  weight_all (sub ∷ subs) = weight (goroutine sub) + weight_all subs

  pub weight-append : (xs ys : List Action) → weight (xs ++ ys) ≡ weight xs + weight ys
  weight-append [] ys = omega arith
  weight-append (x ∷ xs) ys = omega (arith, weight-append xs ys)

sum_below : ℕ → (ℕ → ℕ) → ℕ
sum_below zero f = 0
sum_below (suc n) f = sum_below n f + f n

sum_below_bump :
    (n j h : ℕ) (f : ℕ → ℕ)
    → sum_below n (λ i. if j == i then h + f i else f i)
      ≡ (if ltb j n then h else 0) + sum_below n f
unfolding sum_below
sum_below_bump zero j h f = ground arith
sum_below_bump (suc n) j h f = ground (arith, sum_below_bump n j h f)

sum_below_cong : (n : ℕ) (f g : ℕ → ℕ) → ((i : ℕ) → f i ≡ g i) → sum_below n f ≡ sum_below n g
unfolding sum_below
sum_below_cong zero f g h = refl
sum_below_cong (suc n) f g h = omega (arith, sum_below_cong n f g h, h n)

-- No goroutine from `n` on acts.
abbrev IsBounded : ℕ → List (ℕ × Action) → Type 0
IsBounded n trace = (i : ℕ) → n ≤ i → actions_of i trace ≡ []

IsBounded-tail :
    (n j : ℕ) (a : Action) (trace : List (ℕ × Action))
    → IsBounded n ((j, a) ∷ trace)
    → (j < n) × IsBounded n trace
unfolding actions_of
IsBounded-tail n j a trace b = (
  elim (Bool-cases (ltb j n)) [
    | inl e ↦ ground arith
    | inr e ↦ absurd (ground (arith, b j (ground arith)))
  ],
  λ i le. elim (Bool-cases (j == i)) [
    | inl e ↦ absurd (ground (arith, b i le))
    | inr e ↦ ground (arith, b i le)
  ],
)

sum_below_zero : (n : ℕ) → sum_below n (λ i. 0) ≡ 0
unfolding sum_below
sum_below_zero zero = refl
sum_below_zero (suc n) = omega (arith, sum_below_zero n)

bumped : (n j h : ℕ) → j < n → (if ltb j n then h else 0) ≡ h
bumped n j h lt = ground arith

weight_step :
    (w : Action → ℕ) (i j : ℕ) (a : Action) (trace : List (ℕ × Action))
    → weight w (actions_of i ((j, a) ∷ trace))
      ≡ (if j == i then w a + weight w (actions_of i trace) else weight w (actions_of i trace))
unfolding actions_of
weight_step w i j a trace = ground arith

weight_by_goroutine :
    (w : Action → ℕ) (n : ℕ) (trace : List (ℕ × Action))
    → IsBounded n trace
    → weight_run w trace ≡ sum_below n (λ i. weight w (actions_of i trace))
unfolding actions_of sum_below
weight_by_goroutine w n [] b = sym (sum_below_zero n)
weight_by_goroutine w n ((j, a) ∷ trace) b =
    let t = IsBounded-tail n j a trace b in
    omega (
      arith,
      weight_by_goroutine w n trace t.1,
      sum_below_bump n j (w a) (λ i. weight w (actions_of i trace)),
      sum_below_cong n _ _ (λ i. weight_step w i j a trace),
      bumped n j (w a) t.0,
    )

goroutine_at_end : (subs : List SubRequest) (i : ℕ) → length subs ≤ i → goroutine_at i subs ≡ []
unfolding goroutine_at
goroutine_at_end [] i le = refl
goroutine_at_end (sub ∷ subs) zero le = absurd (omega (arith, le))
goroutine_at_end (sub ∷ subs) (suc i) le = goroutine_at_end subs i (omega (arith, le))

sum_below_front : (n : ℕ) (f : ℕ → ℕ) → sum_below (suc n) f ≡ f 0 + sum_below n (λ i. f (suc i))
unfolding sum_below
sum_below_front zero f = omega arith
sum_below_front (suc n) f = omega (arith, sum_below_front n f)

sum_of_goroutines :
    (w : Action → ℕ) (subs : List SubRequest)
    → sum_below (length subs) (λ i. weight w (goroutine_at i subs)) ≡ weight_all w subs
unfolding goroutine_at sum_below
sum_of_goroutines w [] = refl
sum_of_goroutines w (sub ∷ subs) = omega (
  arith,
  sum_below_front (length subs) (λ i. weight w (goroutine_at i (sub ∷ subs))),
  sum_of_goroutines w subs,
)

-- The weight of an interleaving is that of the goroutines.
pub weight_of_run :
    (w : Action → ℕ) (subs : List SubRequest) (trace : List (ℕ × Action))
    → IsInterleaving subs trace
    → weight_run w trace ≡ weight_all w subs
weight_of_run w subs trace h =
    weight_by_goroutine w (length subs) trace (λ i le. h i ∙ goroutine_at_end subs i le)
    ∙ (sum_below_cong (length subs) _ _ (λ i. ap (weight w) (h i)) ∙ sum_of_goroutines w subs)

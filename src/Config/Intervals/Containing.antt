-- ===== src/Config/Intervals/Containing.antt =====
-- A lookup finds the interval that contains a number.
use kava_proxy_service.Base.{
  ℕ, ◌≤◌, ◌<◌, List, [], ◌∷◌, Option, none, some, false, ◌≡◌, ◌≢◌, ◌↔◌, refl, ◌&&◌, inl, inr, Any,
  length, ltb, leb, arith, Bool-cases,
}
use native.Mathlib.Decide.{dec_lt}
use kava_proxy_service.Config.Intervals.{
  Url, UrlByHeight, url_at, keys, sort, at, search, new_interval_url_map, lookup_interval,
}
use kava_proxy_service.Config.Intervals.Search.{IsFirst, search-IsFirst}
use kava_proxy_service.Config.Intervals.Sorting.{Any-sort, at-sort_mono, position_of, Any-at}

-- The interval of a map that contains `num`: the least end that is not below `num`, with the URL
-- of that end; or no end reaches `num`.
abbrev pub IsInterval : UrlByHeight → ℕ → Option (Option Url × ℕ) → Type 0
IsInterval m num none = (k : ℕ) → url_at k m ≢ none → k < num
IsInterval m num (some (u, e)) =
    (num ≤ e) × (u ≢ none) × (u ≡ url_at e m) × ((k : ℕ) → url_at k m ≢ none → num ≤ k → e ≤ k)

url_at-keys : (k : ℕ) (m : UrlByHeight) → (url_at k m ≢ none) ↔ Any (λ z. k ≡ z) (keys m)
unfolding url_at keys
url_at-keys k [] = ground arith
url_at-keys k ((j, u) ∷ m) = ground (arith, url_at-keys k m)

module _ (m : UrlByHeight) (num : ℕ) where
  abbrev ends : List ℕ
  ends = sort (keys m)

  first :
      IsFirst
        (length ends)
        (λ i. leb num (at ends i))
        (search (length ends) (λ i. leb num (at ends i)))
  first = search-IsFirst _ _ (λ a b le lt h. ground (arith, at-sort_mono (keys m) a b le lt))

  -- Every end of an interval stands at a position of the sorted ends.
  end_position : (k : ℕ) → url_at k m ≢ none → (i : ℕ) × (i < length ends) × (at ends i ≡ k)
  end_position k h = position_of k ends ((Any-sort k (keys m)).1 ((url_at-keys k m).0 h))

  at-url_at : (i : ℕ) → i < length ends → url_at (at ends i) m ≢ none
  at-url_at i h = (url_at-keys _ m).1 ((Any-sort _ (keys m)).0 (Any-at ends i h))

  abbrev index : ℕ
  index = search (length ends) (λ i. leb num (at ends i))

  found_least : index < length ends → (k : ℕ) → url_at k m ≢ none → num ≤ k → at ends index ≤ k
  found_least lt k h le =
      let (j, jl, e) = end_position k h in
      elim (dec_lt j index) [
        | yes p ↦ absurd (ground (arith, first.below j p))
        | no p ↦ rw (← e) (at-sort_mono (keys m) index j (omega arith) jl)
      ]

  not_inside : (ltb index (length ends) && leb num (at ends index)) ≡ false → length ends ≤ index
  not_inside h = elim (dec_lt index (length ends)) [
    | yes p ↦ absurd (ground (arith, first.above index (omega arith) p))
    | no p ↦ omega arith
  ]

  none_reaches : length ends ≤ index → (k : ℕ) → url_at k m ≢ none → k < num
  none_reaches le k h =
      let (j, jl, e) = end_position k h in ground (arith, first.below j (omega arith))

-- Looking a number up in the map that NewIntervalURLMap builds gives the interval that contains
-- it, whatever the order of the map's entries: the least end height that is not below the number,
-- with its URL; it gives none exactly when every end height is below the number.
pub lookup_interval-IsInterval :
    (m : UrlByHeight) (num : ℕ) → IsInterval m num (lookup_interval (new_interval_url_map m) num)
unfolding lookup_interval new_interval_url_map
lookup_interval-IsInterval m num =
    elim (Bool-cases
      (ltb (index m num) (length (ends m num)) && leb num (at (ends m num) (index m num)))) [
        | inl t ↦ rw t (
          ground arith,
          at-url_at m num (index m num) (ground arith),
          refl,
          found_least m num (ground arith),
        )
        | inr t ↦ rw t (none_reaches m num (not_inside m num t))
      ]

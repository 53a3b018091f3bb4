-- ===== src/Config/Intervals.antt =====
-- config/intervalmap.go: NewIntervalURLMap and Lookup, with sort.Slice and sort.Search of the Go
-- library. A URL is its text. The children prove the search (Search), the sort (Sorting), and that
-- a lookup finds the interval that contains a number (Containing).
pub mod Search
pub mod Sorting
pub mod Containing
use kava_proxy_service.Base.{
  ℕ, zero, suc, ◌+◌, ◌/◌, String, List, [], ◌∷◌, Option, none, some, Bool, true, false, ◌&&◌, ltb,
  leb, ◌==◌, if◌then◌else◌, length,
}

abbrev pub Url : Type 0
Url = String

-- map[uint64]*url.URL
abbrev pub UrlByHeight : Type 0
UrlByHeight = List (ℕ × Url)

unfoldable pub url_at : ℕ → UrlByHeight → Option Url
url_at e [] = none
url_at e ((k, u) ∷ m) = if k == e then some u else url_at e m

pub record IntervalUrlMap : Type 0 where
  pub url_by_end_height : UrlByHeight
  pub endpoints : List ℕ

pub keys : UrlByHeight → List ℕ
keys [] = []
keys ((k, _) ∷ m) = k ∷ keys m

pub insert_sorted : ℕ → List ℕ → List ℕ
insert_sorted x [] = x ∷ []
insert_sorted x (y ∷ ys) = if leb x y then x ∷ y ∷ ys else y ∷ insert_sorted x ys

-- sort.Slice with `<`
pub sort : List ℕ → List ℕ
sort [] = []
sort (x ∷ xs) = insert_sorted x (sort xs)

unfoldable pub new_interval_url_map : UrlByHeight → IntervalUrlMap
unfolding keys sort insert_sorted
new_interval_url_map m = record { url_by_end_height = m; endpoints = sort (keys m) }

-- endpoints[i], in range
abbrev pub at : List ℕ → ℕ → ℕ
at [] i = 0
at (x ∷ xs) zero = x
at (x ∷ xs) (suc i) = at xs i

-- The loop of sort.Search; `fuel` bounds its rounds.
pub search_loop : ℕ → (ℕ → Bool) → ℕ → ℕ → ℕ
search_loop zero f i j = i
search_loop (suc fuel) f i j = elim (ltb i j) [
  | false ↦ i
  | true ↦ elim (f ((i + j) / 2)) [
    | false ↦ search_loop fuel f ((i + j) / 2 + 1) j
    | true ↦ search_loop fuel f i ((i + j) / 2)
  ]
]

-- sort.Search(n, f)
unfoldable pub search : ℕ → (ℕ → Bool) → ℕ
unfolding search_loop
search n f = search_loop n f 0 n

-- The URL, the end of the interval, and `found` as the outer `Option`; a URL that is missing from
-- the map is nil.
unfoldable pub lookup_interval : IntervalUrlMap → ℕ → Option (Option Url × ℕ)
lookup_interval im num =
    let i = search (length im.endpoints) (λ i. leb num (at im.endpoints i)) in
    if ltb i (length im.endpoints) && leb num (at im.endpoints i)
    then some (url_at (at im.endpoints i) im.url_by_end_height, at im.endpoints i)
    else none

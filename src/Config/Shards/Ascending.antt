-- ===== src/Config/Shards/Ascending.antt =====
-- What ParseRawShardRoutingBackendHostURLMap accepts: for each host, shards with strictly increasing
-- end heights above 0, and with backends.
use kava_proxy_service.Base.{
  ℕ, ◌<◌, ◌≤◌, ◌==◌, String, List, [], ◌∷◌, ◌++◌, none, some, Option, true, Result, ok, err, panic,
  Error, ◌>>=◌, ◌≡◌, ◌≢◌, refl, sym, subst, ◌∙◌, Dict, insert, All, length, split, str_eq, eq_iff,
  arith, ltb, failure, not, ◌%◌, Bool, false, ap, Bool-cases, inl, inr,
}
use kava_proxy_service.Exec.{check}
use kava_proxy_service.Config.Intervals.{UrlByHeight, url_at, IntervalUrlMap, new_interval_url_map}
use kava_proxy_service.Config.Environment.{System}
use kava_proxy_service.Config.Shards.{
  add_shard, add_shards, host_shards, then_hosts, parse_hosts,
  parse_raw_shard_routing_backend_host_url_map, is_none,
}

-- Shards in the order of their end heights, each above the one before it, and with a backend.
abbrev pub Ascending : ℕ → UrlByHeight → Type 0
Ascending low [] = Unit
Ascending low ((e, u) ∷ rest) = (low < e) × (u ≢ "") × Ascending e rest

abbrev last_end : ℕ → UrlByHeight → ℕ
last_end low [] = low
last_end low ((e, u) ∷ rest) = last_end e rest

last_end_above : (low : ℕ) (shards : UrlByHeight) → Ascending low shards → low ≤ last_end low shards
last_end_above low [] h = omega arith
last_end_above low ((e, u) ∷ rest) (above, _, h) = omega (arith, above, last_end_above e rest h)

-- A height that is not yet an end and not below the last end is above it.
new_end_above :
    (low e : ℕ) (shards : UrlByHeight)
    → Ascending low shards
    → low < e
    → url_at e shards ≡ none
    → last_end low shards ≤ e
    → last_end low shards < e
unfolding url_at
new_end_above low e [] h above absent ordered = above
new_end_above low e ((k, u) ∷ rest) (_, _, h) above absent ordered = elim (Bool-cases (k == e)) [
  | inl same ↦ ground arith
  | inr other ↦
      new_end_above k e rest h (ground (arith, last_end_above k rest h)) (ground arith) ordered
]

Ascending-append :
    (low e : ℕ) (u : String) (shards : UrlByHeight)
    → Ascending low shards
    → last_end low shards < e
    → u ≢ ""
    → Ascending low (shards ++ ((e, u) ∷ []))
Ascending-append low e u [] h above given = (above, given, tt)
Ascending-append low e u ((k, v) ∷ rest) (first, backend, h) above given =
    (first, backend, Ascending-append k e u rest h above given)

last_end-append :
    (low e : ℕ) (u : String) (shards : UrlByHeight) → last_end low (shards ++ ((e, u) ∷ [])) ≡ e
last_end-append low e u [] = refl
last_end-append low e u ((k, v) ∷ rest) = last_end-append k e u rest

bound :
    {A B : Type 0} (r : Result A) (k : A → Result B) {b : B}
    → (r >>= k) ≡ ok b
    → (a : A) × (r ≡ ok a) × (k a ≡ ok b)
bound (ok a) k h = (a, refl, h)
bound (err e) k h = cc
bound panic k h = cc

tests_passed :
    (height last : ℕ) (u : String) (shards : UrlByHeight)
    → not (height == 0) ≡ true
    → is_none (url_at height shards) ≡ true
    → not (ltb height last) ≡ true
    → not (str_eq u "") ≡ true
    → (0 < height) × (url_at height shards ≡ none) × (last ≤ height) × (u ≢ "")
tests_passed height last u shards positive fresh ordered given =
    (ground arith, absent (url_at height shards) fresh, ground arith, ground (arith, eq_iff u ""))
  where
    absent : (found : Option String) → is_none found ≡ true → found ≡ none
    absent none h = refl
    absent (some u) h = cc

-- Where all tests but the last hold only if the last holds too.
all_passed :
    (a b c d : Bool) (e0 e1 e2 e3 : Error) {B : Type 0} {x y : B}
    → (check a e0 >>= λ _. check b e1 >>= λ _. check c e2 >>= λ _. check d e3 >>= λ _. ok x) ≡ ok y
    → (a ≡ true) × (b ≡ true) × (c ≡ true) × (d ≡ true) × (x ≡ y)
all_passed true true true true e0 e1 e2 e3 h = (refl, refl, refl, refl, cc)
all_passed false b c d e0 e1 e2 e3 h = cc
all_passed true false c d e0 e1 e2 e3 h = cc
all_passed true true false d e0 e1 e2 e3 h = cc
all_passed true true true false e0 e1 e2 e3 h = cc

never_passed :
    (a b c : Bool) (e0 e1 e2 e3 : Error) {B : Type 0} {y : B}
    → (check a e0 >>= λ _. check b e1 >>= λ _. check c e2 >>= λ _. err e3) ≡ ok y
    → ⊥
never_passed false b c e0 e1 e2 e3 h = cc
never_passed true false c e0 e1 e2 e3 h = cc
never_passed true true false e0 e1 e2 e3 h = cc
never_passed true true true e0 e1 e2 e3 h = cc

-- What a shard that is accepted adds.
add_shard-eq-ok :
    (height : Option ℕ) (url : Option String) (last e : ℕ) (shards more : UrlByHeight)
    → add_shard height url last shards ≡ ok (e, more)
    → (0 < e)
      × (url_at e shards ≡ none)
      × (last ≤ e)
      × ((u : String) × (u ≢ "") × (more ≡ shards ++ ((e, u) ∷ [])))
unfolding add_shard
add_shard-eq-ok none url last e shards more h = cc
add_shard-eq-ok (some height) none last e shards more h =
    elim (never_passed (not (height == 0)) (is_none (url_at height shards)) (not (ltb height last))
      _ _ _ _ h) [ ]
add_shard-eq-ok (some height) (some u) last e shards more h =
    let (positive, fresh, ordered, given, same) =
      all_passed (not (height == 0)) (is_none (url_at height shards)) (not (ltb height last))
        (not (str_eq u "")) _ _ _ _ h in
    let (above, absent, after, backend) =
      tests_passed height last u shards positive fresh ordered given in
    let same_height : height ≡ e = cc in
    (
      subst (λ n. 0 < n) same_height above,
      subst (λ n. url_at n shards ≡ none) same_height absent,
      subst (λ n. last ≤ n) same_height after,
      (u, backend, cc),
    )

module _ (sys : System) where
  add_shards-Ascending :
      (values : List String) (shards accepted : UrlByHeight)
      → Ascending 0 shards
      → add_shards sys values (last_end 0 shards) shards ≡ ok accepted
      → Ascending 0 accepted
  unfolding add_shards
  add_shards-Ascending [] shards accepted h e =
      let same : shards ≡ accepted = cc in subst (Ascending 0) same h
  add_shards-Ascending (x ∷ []) shards accepted h e = cc
  add_shards-Ascending (height_text ∷ url_text ∷ rest) shards accepted h e =
      let ((height, more), added, e') =
        bound
          (add_shard (sys.parse_uint height_text) (sys.parse_url url_text) (last_end 0 shards)
            shards)
          (λ (n, m). add_shards sys rest n m) e in
      let (above, absent, after, (u, backend, same)) =
        add_shard-eq-ok (sys.parse_uint height_text) (sys.parse_url url_text) (last_end 0 shards)
          height shards more added in
      let grown : Ascending 0 (shards ++ ((height, u) ∷ [])) =
        Ascending-append 0 height u shards h (new_end_above 0 height shards h above absent after)
          backend in
      add_shards-Ascending rest more accepted (subst (Ascending 0) (sym same) grown) (
        ap (λ n. add_shards sys rest n more)
          (ap (last_end 0) same ∙ last_end-append 0 height u shards)
        ∙ e')

  host_shards-Ascending :
      (pieces : List String) (host : String) (shards : UrlByHeight)
      → host_shards sys pieces ≡ ok (host, shards)
      → Ascending 0 shards
  unfolding host_shards
  host_shards-Ascending [] host shards e = cc
  host_shards-Ascending (x ∷ []) host shards e = cc
  host_shards-Ascending (x ∷ values ∷ []) host shards e =
      let (_, even, e1) =
        bound (check (length (split b'|' values) % 2 == 0) (failure "unexpected sequence"))
          (λ _. add_shards sys (split b'|' values) 0 [] >>= λ s. ok (x, s)) e in
      let (accepted, added, e2) =
        bound (add_shards sys (split b'|' values) 0 []) (λ s. ok (x, s)) e1 in
      let same : accepted ≡ shards = cc in
      subst (Ascending 0) same (add_shards-Ascending (split b'|' values) [] accepted tt added)
  host_shards-Ascending (x ∷ y ∷ z ∷ more) host shards e = cc

-- An interval map that was made from ascending shards.
abbrev pub IsShardMap : String × IntervalUrlMap → Type 0
IsShardMap (host, im) =
    (shards : UrlByHeight) × (im ≡ new_interval_url_map shards) × Ascending 0 shards

All-insert :
    (host : String) (im : IntervalUrlMap) (parsed : Dict IntervalUrlMap)
    → IsShardMap (host, im)
    → All IsShardMap parsed
    → All IsShardMap (insert host im parsed)
unfolding insert
All-insert host im [] h hs = (h, tt)
All-insert host im ((first, old) ∷ rest) h (h0, hs) = elim (Bool-cases (str_eq first host)) [
  | inl same ↦ rw same (h, hs)
  | inr other ↦ rw other (h0, All-insert host im rest h hs)
]

module _ (sys : System) where
  then_hosts-IsShardMap :
      (pieces : List String) (r : Result (String × UrlByHeight))
      (next : Dict IntervalUrlMap → Dict IntervalUrlMap × Result (Unit {0}))
      (parsed : Dict IntervalUrlMap)
      → host_shards sys pieces ≡ r
      → All IsShardMap parsed
      → ((more : Dict IntervalUrlMap) → All IsShardMap more → All IsShardMap (next more).0)
      → All IsShardMap (then_hosts sys next parsed r).0
  then_hosts-IsShardMap pieces (ok (host, shards)) next parsed e hs h = h _ (
      All-insert host (new_interval_url_map shards) parsed
        (shards, refl, host_shards-Ascending sys pieces host shards e) hs)
  then_hosts-IsShardMap pieces (err x) next parsed e hs h = hs
  then_hosts-IsShardMap pieces panic next parsed e hs h = hs

  parse_hosts-IsShardMap :
      (definitions : List String) (parsed : Dict IntervalUrlMap)
      → All IsShardMap parsed
      → All IsShardMap (parse_hosts sys definitions parsed).0
  unfolding parse_hosts
  parse_hosts-IsShardMap [] parsed hs = hs
  parse_hosts-IsShardMap (definition ∷ rest) parsed hs =
      then_hosts-IsShardMap (split b'>' definition) (host_shards sys (split b'>' definition))
        (parse_hosts sys rest) parsed refl hs (λ more. parse_hosts-IsShardMap rest more)

  -- Whatever the text, each host of the map that the parse of the shards returns, also beside an
  -- error, has the interval map of some shards whose end heights are above 0 and strictly increase, and
  -- whose backends are not empty.
  pub shards_ascending :
      (raw : String) → All IsShardMap (parse_raw_shard_routing_backend_host_url_map sys raw).0
  unfolding parse_raw_shard_routing_backend_host_url_map
  shards_ascending raw = elim (Bool-cases (str_eq raw "")) [
    | inl empty ↦ rw empty tt
    | inr given ↦ rw given (parse_hosts-IsShardMap (split b',' raw) [] tt)
  ]

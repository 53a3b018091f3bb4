-- ===== src/Config/HostMaps/RoundTrip.antt =====
-- What is written as a list of `host>value` is read as the map of these hosts.
use Prim.Native.Char.{Char}
use text.Mathlib.TextLemmas.{nil-append, cons-append}
use kava_proxy_service.Base.{
  ℕ, suc, String, [], ◌∷◌, map, Option, none, some, ◌≡◌, ◌≢◌, refl, Dict, insert, lookup, All,
  Lacks, split, join, split-join, ◌+++◌, arith, str_eq, ltb, length, if◌then◌else◌, lookup-insert,
  lookup-nil, Error, sym, ap, ◌∙◌, subst, false, str_eq_ne, empty_host_map,
}
use kava_proxy_service.Config.Environment.{System}
use kava_proxy_service.Config.HostMaps.{
  entry_of, add_entry, add_entries, parse_entries, parse_raw_proxy_backend_host_url_map,
}

abbrev comma : Char
comma = ","

abbrev greater : Char
greater = ">"

-- The text of an entry, `host>value`.
abbrev pub print_entry : String × String → String
print_entry (host, value) = join ">" (host ∷ value ∷ [])

abbrev pub print_entries : Dict String → String
print_entries entries = join "," (map print_entry entries)

-- The host and the value hold neither delimiter, and the value parses to itself.
abbrev pub IsPlain : (String → Option String) → String × String → Type 0
IsPlain parse_value (host, value) =
    Lacks b'>' host
    × Lacks b'>' value
    × Lacks b',' host
    × Lacks b',' value
    × (parse_value value ≡ some value)

-- The value that is written last for a host.
abbrev pub last_value : String → Dict String → Option String → Option String
last_value host [] before = before
last_value host ((key, value) ∷ rest) before =
    last_value host rest (if str_eq key host then some value else before)

Lacks-append : (sep : ℕ) (s t : String) → Lacks sep s → Lacks sep t → Lacks sep (s +++ t)
Lacks-append sep String.[] t hs ht = subst (Lacks sep) (sym (nil-append t)) ht
Lacks-append sep (String.◌∷◌ c s) t (hc, hs) ht =
    subst (Lacks sep) (sym (cons-append c s t)) (hc, Lacks-append sep s t hs ht)

delimiter-Lacks : Lacks b',' ">"
delimiter-Lacks = omega arith

print_entry-Lacks :
    (host value : String)
    → Lacks b',' host
    → Lacks b',' value
    → Lacks b',' (print_entry (host, value))
unfolding join
print_entry-Lacks host value h v =
    Lacks-append b',' host (">" +++ value) h (Lacks-append b',' ">" value delimiter-Lacks v)

ltb-suc : (n : ℕ) → ltb (suc n) 1 ≡ false
ltb-suc n = ground arith

module _ (parse_value : String → Option String) where
  entry_of-print_entry :
      (host value : String)
      → IsPlain parse_value (host, value)
      → entry_of parse_value (split b'>' (print_entry (host, value))) ≡ some (host, value)
  unfolding entry_of
  entry_of-print_entry host value (h, v, _, _, parsed) =
      rw (split-join greater host (value ∷ []) (h, (v, tt)), parsed) refl

  All-Lacks :
      (entries : Dict String)
      → All (IsPlain parse_value) entries
      → All (Lacks b',') (map print_entry entries)
  All-Lacks [] hs = tt
  All-Lacks ((host, value) ∷ rest) ((_, _, h, v, _), hs) =
      (print_entry-Lacks host value h v, All-Lacks rest hs)

  -- Plain entries are all written to the map, and add no error.
  add_entries-print :
      (message host : String) (entries values : Dict String)
      → All (IsPlain parse_value) entries
      → let after = add_entries parse_value message (map print_entry entries) (values, []) in
        (lookup host after.0 ≡ last_value host entries (lookup host values)) × (after.1 ≡ [])
  unfolding add_entries add_entry
  add_entries-print message host [] values hs = (refl, refl)
  add_entries-print message host ((key, value) ∷ rest) values (h, hs) =
      let step : add_entries parse_value message (map print_entry ((key, value) ∷ rest))
            (values, [])
          ≡ add_entries parse_value message (map print_entry rest) (insert key value values, []) =
        ap
          (λ o.
            add_entries parse_value message (map print_entry rest)
              (add_entry parse_value message (print_entry (key, value)) o (values, [])))
          (entry_of-print_entry key value h) in
      let (same_lookup, no_errors) =
        add_entries-print message host rest (insert key value values) hs in
      (
        ap (λ r. lookup host r.0) step
            ∙ same_lookup
            ∙ ap (last_value host rest) (lookup-insert key host value values),
        ap (λ r. r.1) step ∙ no_errors,
      )

  -- The text of an entry is not empty: it splits into two parts.
  print_entry_ne :
      (host value : String) → IsPlain parse_value (host, value) → print_entry (host, value) ≢ ""
  unfolding split
  print_entry_ne host value (h, v, _, _, _) e =
      let two : (host ∷ value ∷ []) ≡ ("" ∷ []) =
        sym (split-join greater host (value ∷ []) (h, (v, tt))) ∙ ap (split b'>') e in
      omega (arith, ap length two)

  print_entries_ne :
      (host value : String) (rest : Dict String)
      → All (IsPlain parse_value) ((host, value) ∷ rest)
      → print_entries ((host, value) ∷ rest) ≢ ""
  unfolding split
  print_entries_ne host value rest hs e =
      let one : map print_entry ((host, value) ∷ rest) ≡ ("" ∷ []) =
        sym (
          split-join comma (print_entry (host, value)) (map print_entry rest)
            (All-Lacks ((host, value) ∷ rest) hs))
        ∙ ap (split b',') e in
      print_entry_ne host value hs.0 cc

  parse_entries-print :
      (empty : Error) (message host : String) (first : String × String) (rest : Dict String)
      → All (IsPlain parse_value) (first ∷ rest)
      → let parsed = parse_entries parse_value empty message (print_entries (first ∷ rest)) in
        (lookup host parsed.0 ≡ last_value host (first ∷ rest) none) × (parsed.1 ≡ [])
  unfolding parse_entries
  parse_entries-print empty message host (key, value) rest hs =
      rw
        (
          split-join comma (print_entry (key, value)) (map print_entry rest)
              (All-Lacks ((key, value) ∷ rest) hs),
          str_eq_ne (print_entries ((key, value) ∷ rest)) "" (print_entries_ne key value rest hs),
          ltb-suc (length (map print_entry rest)),
          (add_entries-print message host ((key, value) ∷ rest) [] hs).0,
          (add_entries-print message host ((key, value) ∷ rest) [] hs).1,
          lookup-nil {V = String} host,
        )
        (refl, refl)

-- A map of hosts to URLs that is written as `host>url` entries, without a delimiter in a host or a
-- URL and with URLs that url.Parse gives back, is parsed without an error to the map that has for each
-- host the URL that is written last for it, and nothing for other hosts.
pub host_map_round_trip :
    (sys : System) (host : String) (first : String × String) (rest : Dict String)
    → All (IsPlain sys.parse_url) (first ∷ rest)
    → let parsed = parse_raw_proxy_backend_host_url_map sys (print_entries (first ∷ rest)) in
      (lookup host parsed.0 ≡ last_value host (first ∷ rest) none) × (parsed.1 ≡ [])
unfolding parse_raw_proxy_backend_host_url_map
host_map_round_trip sys =
    parse_entries-print sys.parse_url empty_host_map
      "expected map value of host to backend url delimited by >, got "

-- ===== src/Config/Validation/Optional.antt =====
-- The raw maps that may be empty.
use Prim.Native.Char.{Char, code}
use kava_proxy_service.Base.{
  ℕ, suc, String, List, [], ◌∷◌, ◌++◌, Option, none, some, Bool, true, false, str_eq, ◌+++◌, Dict,
  Error, failure, empty_host_map, empty_hostname_to_header_value_map, ◌≡◌, ◌↔◌, ◌⊎◌, inl, inr, refl,
  arith, eq_iff, length, split, ltb, Bool-cases, ◌==◌, split_step, ◌∙◌,
}
use kava_proxy_service.Config.Environment.{System}
use kava_proxy_service.Config.HostMaps.{
  Errors, parse_raw_proxy_backend_host_url_map, parse_raw_hostname_to_header_value_map,
  parse_entries, add_entries, add_entry,
}
use kava_proxy_service.Config.Validation.{
  is_empty_map, unless_empty, validate_host_url_map, validate_hostname_to_header_value_map,
}

is_empty_map-append :
    (errors : Errors) (text : String)
    → is_empty_map (errors ++ (failure text ∷ [])) ≡ is_empty_map errors
unfolding is_empty_map
is_empty_map-append [] text = refl
is_empty_map-append (empty_host_map ∷ errors) text = refl
is_empty_map-append (empty_hostname_to_header_value_map ∷ errors) text = refl
is_empty_map-append (failure t ∷ errors) text = is_empty_map-append errors text
is_empty_map-append (_ ∷ errors) text = is_empty_map-append errors text

ltb-suc : (n : ℕ) → ltb (suc n) 1 ≡ false
ltb-suc n = ground arith

split_step-length :
    (b : Bool) (c : Char) (parts : List String) → ltb (length (split_step b c parts)) 1 ≡ false
split_step-length true c parts = ltb-suc (length parts)
split_step-length false c [] = refl
split_step-length false c (p ∷ parts) = ltb-suc (length parts)

split-length : (sep : ℕ) (s : String) → ltb (length (split sep s)) 1 ≡ false
unfolding split
split-length sep String.[] = refl
split-length sep (String.◌∷◌ c s) = split_step-length (code c == sep) c (split sep s)

module _ {V : Type 0} (parse_value : String → Option V) where
  add_entry-is_empty_map :
      (message entry : String) (parsed : Option (String × V)) (state : Dict V × Errors)
      → is_empty_map (add_entry parse_value message entry parsed state).1 ≡ is_empty_map state.1
  unfolding add_entry
  add_entry-is_empty_map message entry none (values, errors) =
      is_empty_map-append errors (message +++ entry)
  add_entry-is_empty_map message entry (some (host, v)) (values, errors) = refl

  add_entries-is_empty_map :
      (message : String) (entries : List String) (state : Dict V × Errors)
      → is_empty_map (add_entries parse_value message entries state).1 ≡ is_empty_map state.1
  unfolding add_entries
  add_entries-is_empty_map message [] state = refl
  add_entries-is_empty_map message (entry ∷ rest) state =
      add_entries-is_empty_map message rest _ ∙ add_entry-is_empty_map message entry _ state

  -- The parse says that the map is empty exactly if the text is.
  is_empty_map-parse_entries :
      (empty : Error) (message raw : String)
      → ((errors : Errors) → is_empty_map (empty ∷ errors) ≡ true)
      → is_empty_map (parse_entries parse_value empty message raw).1 ≡ str_eq raw ""
  unfolding parse_entries is_empty_map
  is_empty_map-parse_entries empty message raw sentinel = elim (Bool-cases (str_eq raw "")) [
    | inl given ↦ rw given (sentinel _)
    | inr absent ↦
        rw (absent, split-length b',' raw)
          (add_entries-is_empty_map message (split b',' raw) ([], []))
  ]

unless_empty-nil_iff :
    (raw : String) (errors : Errors)
    → is_empty_map errors ≡ str_eq raw ""
    → (unless_empty true errors ≡ []) ↔ ((raw ≡ "") ⊎ (errors ≡ []))
unfolding unless_empty
unless_empty-nil_iff raw errors e = elim (Bool-cases (str_eq raw "")) [
  | inl given ↦ rw (e, given) ((λ _. inl ((eq_iff raw "").0 given)), (λ _. refl))
  | inr absent ↦
      rw (e, absent)
        (
          inr,
          (λ z. elim z [ inl empty ↦ ground (arith, eq_iff raw "") | inr none_left ↦ none_left ]),
        )
]

-- A text of a map of backends that may be empty is accepted if it is, or if its parse gives no error.
pub optional_url_map_iff :
    (sys : System) (raw : String)
    → (validate_host_url_map sys raw true ≡ [])
      ↔ ((raw ≡ "") ⊎ ((parse_raw_proxy_backend_host_url_map sys raw).1 ≡ []))
unfolding validate_host_url_map parse_raw_proxy_backend_host_url_map is_empty_map
optional_url_map_iff sys raw =
    unless_empty-nil_iff raw _
      (is_empty_map-parse_entries sys.parse_url empty_host_map _ raw (λ errors. refl))

-- The same for a map of header values.
pub optional_header_map_iff :
    (raw : String)
    → (validate_hostname_to_header_value_map raw true ≡ [])
      ↔ ((raw ≡ "") ⊎ ((parse_raw_hostname_to_header_value_map raw).1 ≡ []))
unfolding validate_hostname_to_header_value_map parse_raw_hostname_to_header_value_map is_empty_map
optional_header_map_iff raw =
    unless_empty-nil_iff raw _
      (is_empty_map-parse_entries some empty_hostname_to_header_value_map _ raw (λ errors. refl))

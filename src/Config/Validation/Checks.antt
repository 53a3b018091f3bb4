-- ===== src/Config/Validation/Checks.antt =====
-- When the single checks of Validate pass.

use kava_proxy_service.Base.{
  ℕ, String, [], ◌∷◌, ◌++◌, Option, none, some, Bool, true, false, not, ◌||◌, str_eq, has_char,
  has_char-Lacks, Lacks, Dict, lookup, Error, ℤ, pos, negsuc, lt_ℤ, eq_ℤ_iff, ◌≡◌, ◌≢◌, ◌↔◌, inl,
  inr, refl, arith, eq_iff, Bool-cases, subst, eq_refl,
}
use kava_proxy_service.Config.Intervals.{Url}
use kava_proxy_service.Config.HostMaps.{Errors}
use kava_proxy_service.Clients.CacheClient.{IsTtl}
use kava_proxy_service.Config.Validation.{
  check_ttl_config, missing_host, validate_default_host_map_contains_hosts, error_if, error_with,
  is_some,
}

pub append-nil_iff : (xs ys : Errors) → (xs ++ ys ≡ []) ↔ ((xs ≡ []) × (ys ≡ []))
append-nil_iff [] ys = ground arith
append-nil_iff (x ∷ xs) ys = ground arith

pub error_if-nil_iff : (b : Bool) (key : String) → (error_if b key ≡ []) ↔ (b ≡ false)
unfolding error_if
error_if-nil_iff true key = ground arith
error_if-nil_iff false key = ground arith

pub error_with-nil_iff :
    (key : String) (errors : Errors) → (error_with key errors ≡ []) ↔ (errors ≡ [])
unfolding error_with
error_with-nil_iff key [] = ground arith
error_with-nil_iff key (e ∷ errors) = ground arith

pub check_ttl_config-nil_iff :
    (ttl : ℤ) (key : String) → (check_ttl_config ttl key ≡ []) ↔ IsTtl ttl
unfolding check_ttl_config
check_ttl_config-nil_iff ttl key = ground (arith, eq_ℤ_iff ttl (negsuc 0))

-- The number of days is at least 1 and at most 28.
abbrev pub IsPrefill : ℤ → Type 0
IsPrefill days = (lt_ℤ (pos 0) days ≡ true) × (lt_ℤ days (pos 29) ≡ true)

pub IsPrefill-iff :
    (days : ℤ) → ((lt_ℤ (pos 28) days || lt_ℤ days (pos 1)) ≡ false) ↔ IsPrefill days
IsPrefill-iff (pos n) = ground arith
IsPrefill-iff (negsuc n) = ground arith

Lacks-has_char : (sep : ℕ) (s : String) → Lacks sep s → has_char sep s ≡ false
unfolding has_char
Lacks-has_char sep String.[] h = refl
Lacks-has_char sep (String.◌∷◌ c s) (h, hs) = ground (arith, Lacks-has_char sep s hs)

pub has_char_iff : (sep : ℕ) (s : String) → (has_char sep s ≡ false) ↔ Lacks sep s
has_char_iff sep s = (has_char-Lacks sep s, Lacks-has_char sep s)

-- Every host of the first map is in the second.
abbrev pub ContainsHosts : Dict Url → Dict Url → Type 0
ContainsHosts hosts default_hosts =
    (host : String) → lookup host hosts ≢ none → lookup host default_hosts ≢ none

ContainsHosts-cons :
    (host : String) (u : Url) (rest default_hosts : Dict Url)
    → lookup host default_hosts ≢ none
    → ContainsHosts rest default_hosts
    → ContainsHosts ((host, u) ∷ rest) default_hosts
unfolding lookup
ContainsHosts-cons host u rest default_hosts found h key = elim (Bool-cases (str_eq host key)) [
  | inl same ↦ λ _. subst (λ k. lookup k default_hosts ≢ none) ((eq_iff host key).0 same) found
  | inr other ↦ rw other (h key)
]

ContainsHosts-tail :
    (host : String) (u : Url) (rest default_hosts : Dict Url)
    → ContainsHosts ((host, u) ∷ rest) default_hosts
    → (lookup host default_hosts ≢ none) × ContainsHosts rest default_hosts
unfolding lookup
ContainsHosts-tail host u rest default_hosts h = (
  h host (rw (eq_refl host) (λ e. cc)),
  λ key found. h key (elim (Bool-cases (str_eq host key)) [
    | inl same ↦ rw same (λ e. cc)
    | inr other ↦ rw other found
  ]),
)

missing_host_iff :
    (map_name host : String) (default : Option Url) (rest : Errors)
    → (missing_host map_name host default rest ≡ []) ↔ ((default ≢ none) × (rest ≡ []))
missing_host_iff map_name host none rest = ((λ e. cc), (λ (h, _). elim (h refl) [ ]))
missing_host_iff map_name host (some u) rest = ((λ e. ((λ z. cc), e)), (λ (_, e). e))

pub ContainsHosts-iff :
    (map_name : String) (default_hosts hosts : Dict Url)
    → (validate_default_host_map_contains_hosts map_name default_hosts hosts ≡ [])
      ↔ ContainsHosts hosts default_hosts
unfolding validate_default_host_map_contains_hosts lookup
ContainsHosts-iff map_name default_hosts [] = ((λ _ host h e. h refl), (λ _. refl))
ContainsHosts-iff map_name default_hosts ((host, u) ∷ rest) = (
  (λ e.
      let (found, none_left) = (missing_host_iff map_name host (lookup host default_hosts) _).0 e in
      ContainsHosts-cons host u rest default_hosts found
        ((ContainsHosts-iff map_name default_hosts rest).0 none_left)),
  (λ h.
      let (found, hs) = ContainsHosts-tail host u rest default_hosts h in
      (missing_host_iff map_name host (lookup host default_hosts) _).1
        (found, (ContainsHosts-iff map_name default_hosts rest).1 hs)),
)

pub cons_ne : (e : Error) (errors : Errors) → e ∷ errors ≢ []
cons_ne e errors h = cc

pub both :
    {P Q : Type 0} (xs ys : Errors) → (xs ≡ []) ↔ P → (ys ≡ []) ↔ Q → (xs ++ ys ≡ []) ↔ (P × Q)
both xs ys (p, p') (q, q') = (
  (λ e. let (a, b) = (append-nil_iff xs ys).0 e in (p a, q b)),
  (λ (a, b). (append-nil_iff xs ys).1 (p' a, q' b)),
)

pub through : {P Q R : Type 0} → P ↔ Q → Q ↔ R → P ↔ R
through (f, f') (g, g') = ((λ p. g (f p)), (λ r. f' (g' r)))

pub not-eq-false_iff : (b : Bool) → (not b ≡ false) ↔ (b ≡ true)
not-eq-false_iff true = ground arith
not-eq-false_iff false = ground arith

pub is_some_iff {ℓ} : {A : Type ℓ} (o : Option A) → (not (is_some o) ≡ false) ↔ (o ≢ none)
is_some_iff none = ((λ e. cc), (λ h. elim (h refl) [ ]))
is_some_iff (some a) = ((λ _ e. cc), (λ _. refl))

pub not_empty_iff : (s : String) → (str_eq s "" ≡ false) ↔ (s ≢ "")
not_empty_iff s = ground (arith, eq_iff s "")

-- ===== src/Http/Headers.antt =====
-- http.Header of the Go library: values under canonical keys.
use Prim.Native.Char.{Char, code}
use kava_proxy_service.Base.{
  String, List, [], ◌∷◌, ◌++◌, Option, none, some, Bool, true, ◌&&◌, Dict, lookup, insert, delete,
  ◌==◌, has_char, if◌then◌else◌, ◌≡◌, refl, str_eq, dict_laws, arith, eq_iff,
}

abbrev pub Header : Type 0
Header = Dict (List String)

-- The character of `to` that stands where `c` stands in `from`.
translate : String → String → Char → Char
translate (String.◌∷◌ f from) (String.◌∷◌ t to) c =
    if code f == code c then t else translate from to c
translate _ _ c = c

abbrev lower_letters : String
lower_letters = "abcdefghijklmnopqrstuvwxyz"

abbrev upper_letters : String
upper_letters = "ABCDEFGHIJKLMNOPQRSTUVWXYZ"

-- The bytes of a token, of which the name of a header consists.
abbrev token_chars : String
token_chars = "abcdefghijklmnopqrstuvwxyzABCDEFGHIJKLMNOPQRSTUVWXYZ0123456789!#$%&'*+-.^_`|~"

is_token : String → Bool
is_token String.[] = true
is_token (String.◌∷◌ c s) = has_char (code c) token_chars && is_token s

-- Upper case at the start and behind a dash, else lower case.
capitalize : Bool → String → String
capitalize up String.[] = String.[]
capitalize up (String.◌∷◌ c s) =
    String.◌∷◌
      (if up
        then translate lower_letters upper_letters c
        else translate upper_letters lower_letters c)
      (capitalize (code c == b'-') s)

-- CanonicalHeaderKey: a key that is no token is left as it is.
unfoldable pub canonical : String → String
unfolding translate is_token capitalize has_char
canonical key = if is_token key then capitalize true key else key

abbrev pub first : Option (List String) → String
first none = ""
first (some []) = ""
first (some (v ∷ _)) = v

-- h.Get(key)
unfoldable pub header_get : Header → String → String
header_get h key = first (lookup (canonical key) h)

-- h[key], which does not make the key canonical
unfoldable pub header_values : Header → String → List String
header_values h key = elim (lookup key h) [ none ↦ [] | some vs ↦ vs ]

-- h.Set(key, value)
unfoldable pub header_set : Header → String → String → Header
header_set h key value = insert (canonical key) (value ∷ []) h

-- h.Add(key, value)
unfoldable pub header_add : Header → String → String → Header
unfolding header_values
header_add h key value = insert (canonical key) (header_values h (canonical key) ++ value ∷ []) h

-- h.Del(key)
unfoldable pub header_del : Header → String → Header
header_del h key = delete (canonical key) h

pub get-set :
    (h : Header) (k j v : String)
    → header_get (header_set h k v) j
      ≡ (if str_eq (canonical k) (canonical j) then v else header_get h j)
unfolding header_get header_set
get-set h k j v = simp dict_laws (ground (arith, eq_iff (canonical k) (canonical j)))

canonical_tests :
    (canonical "x-kava-proxy-cache-status" ≡ "X-Kava-Proxy-Cache-Status")
    × (canonical "content-TYPE" ≡ "Content-Type")
    × (canonical "no token" ≡ "no token")
unfolding canonical
canonical_tests = (refl, refl, refl)

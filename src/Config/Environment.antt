-- ===== src/Config/Environment.antt =====
-- config/config.go: values of the environment with their fallbacks. os.LookupEnv, the number parsers
-- of strconv and url.Parse are a parameter; a parsed URL is the text that its String method gives.
use kava_proxy_service.Base.{
  ℕ, ◌+◌, ◌-◌, ◌*◌, ◌^◌, ◌%◌, ltb, String, Bool, Option, none, some, ℤ, pos, negsuc, if◌then◌else◌,
}
use kava_proxy_service.Config.Intervals.{Url}

pub record System : Type 0 where
  -- os.LookupEnv
  pub lookup_env : String → Option String
  -- strconv.ParseBool, strconv.ParseInt(s, 0, 64), strconv.Atoi and strconv.ParseUint(s, 10, 64)
  pub parse_bool : String → Option Bool
  pub parse_int : String → Option ℤ
  pub atoi : String → Option ℤ
  pub parse_uint : String → Option ℕ
  -- url.Parse
  pub parse_url : String → Option Url

module _ {ℓ} {A : Type ℓ} where
  -- The parsed value if the variable is set and parses, else the fallback.
  abbrev pub parsed_or : (String → Option A) → A → Option String → A
  parsed_or parse fallback none = fallback
  parsed_or parse fallback (some text) = elim (parse text) [ none ↦ fallback | some a ↦ a ]

module _ (sys : System) where
  -- os.Getenv
  unfoldable pub getenv : String → String
  getenv key = elim (sys.lookup_env key) [ none ↦ "" | some text ↦ text ]

  unfoldable pub env_or_default : String → String → String
  env_or_default key fallback = elim (sys.lookup_env key) [ none ↦ fallback | some text ↦ text ]

  unfoldable pub env_or_default_bool : String → Bool → Bool
  env_or_default_bool key fallback = parsed_or sys.parse_bool fallback (sys.lookup_env key)

  unfoldable pub env_or_default_int64 : String → ℤ → ℤ
  env_or_default_int64 key fallback = parsed_or sys.parse_int fallback (sys.lookup_env key)

  unfoldable pub env_or_default_int : String → ℤ → ℤ
  env_or_default_int key fallback = parsed_or sys.atoi fallback (sys.lookup_env key)

-- The int64 with the remainder `r` modulo 2^64.
abbrev pub int64_of_remainder : ℕ → ℤ
int64_of_remainder r = if ltb r (2 ^ 63) then pos r else negsuc (2 ^ 64 - 1 - r)

-- The int64 that an integer wraps around to.
abbrev pub wrap_int64 : ℤ → ℤ
wrap_int64 (pos n) = int64_of_remainder (n % 2 ^ 64)
wrap_int64 (negsuc n) = int64_of_remainder (2 ^ 64 - 1 - n % 2 ^ 64)

-- time.Duration(n) * time.Second, in nanoseconds: a product of int64 values.
unfoldable pub seconds : ℤ → ℤ
seconds (pos n) = wrap_int64 (pos (n * 1000000000))
seconds (negsuc n) = wrap_int64 (negsuc (n * 1000000000 + 999999999))

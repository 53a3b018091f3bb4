-- ===== src/Base/Results.antt =====
-- Go's results: a value, an error, or a panic that unwinds the stack. The sentinel errors that the
-- code compares are constructors; `failure` is any other error, with the text that names its place.
use Prim.Native.String.{String}

pub data Error : Type 0 where
  invalid_eth_api_request uncacheable_by_block_number uncacheable_by_block_hash : Error
  not_found request_not_cacheable response_not_cacheable response_not_final : Error
  empty_host_map empty_hostname_to_header_value_map : Error
  failure : String → Error

pub data Result {ℓ} (A : Type ℓ) : Type ℓ where
  ok : A → Result A
  err : Error → Result A
  panic : Result A

infixl 5 ◌>>=◌
abbrev pub ◌>>=◌ {ℓ κ} : {A : Type ℓ} {B : Type κ} → Result A → (A → Result B) → Result B
ok a >>= f = f a
err e >>= f = err e
panic >>= f = panic

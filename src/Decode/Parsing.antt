-- ===== src/Decode/Parsing.antt =====
-- When parsing a block number panics, and that a parsed number is an int64.
use kava_proxy_service.Base.{
  String, List, Option, none, some, ok, panic, ◌≡◌, ◌↔◌, refl, ℕ, ◌≤◌, ℤ, is_int64, true, length,
  get_elem?, lookup, Option-cases, arith, zero, suc, [], ◌∷◌, inl, inr, All, Dict,
}
use kava_proxy_service.External.{External, Json, null, string}
use kava_proxy_service.Decode.Methods.{
  method_name_to_block_number_param_index, block_tag_to_number_codec,
}
use kava_proxy_service.Decode.BlockNumber.{
  block_param_to_int64, parse_block_param, parse_block_number_from_params,
}

get_elem?-eq-none_iff {ℓ} :
    {A : Type ℓ} (xs : List A) (i : ℕ) → (get_elem? xs i ≡ none) ↔ (length xs ≤ i)
get_elem?-eq-none_iff [] i = ground arith
get_elem?-eq-none_iff (x ∷ xs) zero = ground arith
get_elem?-eq-none_iff (x ∷ xs) (suc i) = ground (arith, get_elem?-eq-none_iff xs i)

some_eq : (i j : ℕ) → some i ≡ some j → i ≡ j
some_eq i j h = cc

tags_are_int64 :
    (m : Dict ℤ) (tag : String) (n : ℤ)
    → All (λ e. is_int64 e.1 ≡ true) m
    → lookup tag m ≡ some n
    → is_int64 n ≡ true
unfolding lookup
tags_are_int64 [] tag n a h = cc
tags_are_int64 ((k, v) ∷ m) tag n a h = ground (arith, tags_are_int64 m tag n a.1)

codec_is_int64 : All (λ e. is_int64 e.1 ≡ true) block_tag_to_number_codec
codec_is_int64 = (refl, (refl, (refl, (refl, (refl, (refl, tt))))))

module _ (ext : External) where
  parse_block_param-is_int64 :
      (p : Option Json) (n : ℤ) → parse_block_param ext p ≡ ok n → is_int64 n ≡ true
  unfolding parse_block_param block_param_to_int64
  parse_block_param-is_int64 none n h = cc
  parse_block_param-is_int64 (some null) n h = ground arith
  parse_block_param-is_int64 (some (string tag)) n h =
      ground (arith, tags_are_int64 block_tag_to_number_codec tag n codec_is_int64)
  parse_block_param-is_int64 (some _) n h = cc

  parse_block_param-panic : (p : Option Json) → (parse_block_param ext p ≡ panic) ↔ (p ≡ none)
  unfolding parse_block_param block_param_to_int64
  parse_block_param-panic none = ground arith
  parse_block_param-panic (some null) = ground arith
  parse_block_param-panic (some p) = ground arith

  -- Parsing the block number panics exactly when the method has a block number parameter and the
  -- request has too few params to hold it.
  pub parse_block_number-panic_iff :
      (method : String) (params : List Json)
      → (parse_block_number_from_params ext method params ≡ panic) ↔ (
          (i : ℕ) × (lookup method method_name_to_block_number_param_index ≡ some i)
          × (length params ≤ i))
  unfolding parse_block_number_from_params
  parse_block_number-panic_iff method params =
      elim (Option-cases (lookup method method_name_to_block_number_param_index)) [
        | inl e ↦ (λ h. absurd (ground arith), λ h. absurd (ground arith))
        | inr (i, e) ↦ (
          λ h. (
            i,
            e,
            ground (
              arith,
              parse_block_param-panic (get_elem? params i),
              get_elem?-eq-none_iff params i,
            ),
          ),
          λ h. ground (
            arith,
            parse_block_param-panic (get_elem? params i),
            get_elem?-eq-none_iff params i,
            some_eq h.0 i,
          ),
        )
      ]

  -- A block number that is parsed fits in an int64.
  pub parse_block_number-is_int64 :
      (method : String) (params : List Json) (n : ℤ)
      → parse_block_number_from_params ext method params ≡ ok n
      → is_int64 n ≡ true
  unfolding parse_block_number_from_params
  parse_block_number-is_int64 method params n h =
      elim (Option-cases (lookup method method_name_to_block_number_param_index)) [
        | inl e ↦ ground arith
        | inr (i, e) ↦ ground (arith, parse_block_param-is_int64 (get_elem? params i) n)
      ]

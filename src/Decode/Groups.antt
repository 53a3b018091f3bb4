-- ===== src/Decode/Groups.antt =====
-- The lists and the maps of methods fit together: a method with a block parameter has a position
-- for it, and no method lies in two groups of cacheable methods.
use kava_proxy_service.Base.{
  String, List, [], ◌∷◌, Bool, true, false, not, ◌&&◌, ◌≡◌, ◌≢◌, ◌↔◌, refl, none, Dict, lookup,
  contains, arith, eq_iff,
}
use kava_proxy_service.Decode.Methods.{
  cacheable_by_block_number_methods, method_has_block_number_param, cacheable_by_block_hash_methods,
  method_has_block_hash_param, static_methods, is_method_static, cacheable_by_tx_hash_methods,
  method_has_tx_hash_param, method_name_to_block_number_param_index,
  method_name_to_block_hash_param_index,
}

abbrev keys {ℓ} : {V : Type ℓ} → Dict V → List String
keys [] = []
keys ((k, _) ∷ m) = k ∷ keys m

contains-keys {ℓ} :
    {V : Type ℓ} (m : Dict V) (s : String) → (contains (keys m) s ≡ true) ↔ (lookup s m ≢ none)
unfolding contains lookup
contains-keys [] s = ground arith
contains-keys ((k, v) ∷ m) s = ground (arith, eq_iff s k, eq_iff k s, contains-keys m s)

-- A method is listed as having a block number parameter exactly when the position of that
-- parameter is known, and the same for block hashes.
pub positions_known :
    (method : String)
    → ((method_has_block_number_param method ≡ true)
        ↔ (lookup method method_name_to_block_number_param_index ≢ none))
      × ((method_has_block_hash_param method ≡ true)
          ↔ (lookup method method_name_to_block_hash_param_index ≢ none))
unfolding method_has_block_number_param method_has_block_hash_param
positions_known method = (
  contains-keys method_name_to_block_number_param_index method,
  contains-keys method_name_to_block_hash_param_index method,
)

disjoint : List String → List String → Bool
disjoint [] ys = true
disjoint (x ∷ xs) ys = not (contains ys x) && disjoint xs ys

contains-disjoint :
    (xs ys : List String) (s : String)
    → disjoint xs ys ≡ true
    → contains xs s ≡ true
    → contains ys s ≡ false
unfolding disjoint contains
contains-disjoint [] ys s d h = cc
contains-disjoint (x ∷ xs) ys s d h = ground (arith, eq_iff s x, contains-disjoint xs ys s)

-- A method with a block number parameter is in no other group of cacheable methods, a method with
-- a block hash parameter is neither static nor by transaction hash, and a static method is not by
-- transaction hash. So the order in which the groups are tested does not matter.
pub groups_disjoint :
    (method : String)
    → (method_has_block_number_param method ≡ true
        → (method_has_block_hash_param method ≡ false)
          × (is_method_static method ≡ false)
          × (method_has_tx_hash_param method ≡ false))
      × (method_has_block_hash_param method ≡ true
          → (is_method_static method ≡ false) × (method_has_tx_hash_param method ≡ false))
      × (is_method_static method ≡ true → method_has_tx_hash_param method ≡ false)
unfolding method_has_block_number_param method_has_block_hash_param is_method_static
    method_has_tx_hash_param disjoint contains
groups_disjoint method = (
  λ h. (
    contains-disjoint cacheable_by_block_number_methods cacheable_by_block_hash_methods method refl
        h,
    contains-disjoint cacheable_by_block_number_methods static_methods method refl h,
    contains-disjoint cacheable_by_block_number_methods cacheable_by_tx_hash_methods method refl h,
  ),
  λ h. (
    contains-disjoint cacheable_by_block_hash_methods static_methods method refl h,
    contains-disjoint cacheable_by_block_hash_methods cacheable_by_tx_hash_methods method refl h,
  ),
  λ h. contains-disjoint static_methods cacheable_by_tx_hash_methods method refl h,
)

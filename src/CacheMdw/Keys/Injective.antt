-- ===== src/CacheMdw/Keys/Injective.antt =====
-- Two requests have one key only if they have one method and one hash.
use Prim.Native.Char.{Char}
use text.Mathlib.TextLemmas.{append_cancel_left}
use kava_proxy_service.Base.{
  String, [], ◌∷◌, ◌≡◌, sym, ap, ◌∙◌, split, join, split-join, Lacks, All, ◌+++◌, arith,
}
use kava_proxy_service.External.{External}
use kava_proxy_service.CacheMdw.Keys.{build_cache_key, query_key}

abbrev colon : Char
colon = ":"

parts_equal :
    (a b c a' b' c' : String)
    → All (Lacks b':') (a ∷ "evm-request" ∷ b ∷ "sha256" ∷ c ∷ [])
    → All (Lacks b':') (a' ∷ "evm-request" ∷ b' ∷ "sha256" ∷ c' ∷ [])
    → join ":" (a ∷ "evm-request" ∷ b ∷ "sha256" ∷ c ∷ [])
      ≡ join ":" (a' ∷ "evm-request" ∷ b' ∷ "sha256" ∷ c' ∷ [])
    → (a ≡ a') × (b ≡ b') × (c ≡ c')
parts_equal a b c a' b' c' h h' e =
    let same : (a ∷ "evm-request" ∷ b ∷ "sha256" ∷ c ∷ [])
        ≡ (a' ∷ "evm-request" ∷ b' ∷ "sha256" ∷ c' ∷ []) =
      sym (split-join colon a _ h) ∙ ap (split b':') e ∙ split-join colon a' _ h' in
    (cc, cc, cc)

evm-Lacks : Lacks b':' "evm-request"
evm-Lacks = omega arith

sha-Lacks : Lacks b':' "sha256"
sha-Lacks = omega arith

-- If the prefixes, the methods and the hashes hold no colon, and SHA-256 does not collide on the two
-- hashed texts, then two keys are equal only if the prefixes, the methods and the params in JSON are.
pub query_key_injective :
    (ext : External) (p p' m m' j j' : String)
    → ((s : String) → Lacks b':' (ext.sha256_hex s))
    → All (Lacks b':') (p ∷ p' ∷ m ∷ m' ∷ [])
    → (ext.sha256_hex (m +++ j) ≡ ext.sha256_hex (m' +++ j') → m +++ j ≡ m' +++ j')
    → query_key ext p m j ≡ query_key ext p' m' j'
    → (p ≡ p') × (m ≡ m') × (j ≡ j')
unfolding query_key build_cache_key
query_key_injective ext p p' m m' j j' hex (hp, (hp', (hm, (hm', _)))) collision_free e =
    let (same_p, same_m, same_h) =
      parts_equal p m _ p' m' _ (hp, (evm-Lacks, (hm, (sha-Lacks, (hex _, tt)))))
        (hp', (evm-Lacks, (hm', (sha-Lacks, (hex _, tt))))) e in
    (
      same_p,
      same_m,
      append_cancel_left m j j' (collision_free same_h ∙ ap (λ s. s +++ j') (sym same_m)),
    )

-- ===== src/Config/Mac.antt =====
-- `generateMacAddressWithPresetPrefixAndSuffix` of pkg/internal/config/config.go.
use kubevirt_dpdk_checkup.Base.{
  ℕ, zero, suc, ◌≡◌, ◌≢◌, refl, ap, ◌⊎◌, [], ◌∷◌, some, Bytes, arith, length, get_elem?,
}

abbrev set : Bytes → ℕ → ℕ → Bytes
set [] i v = []
set (x ∷ xs) zero v = v ∷ xs
set (x ∷ xs) (suc i) v = x ∷ set xs i v

-- `rand.Read` fills the six octets, and its error is not read: `random` is any list of six.
unfoldable pub generate_mac_address : Bytes → ℕ → ℕ → Bytes
generate_mac_address random prefix suffix = set (set random 0 prefix) 5 suffix

-- The result has six octets, the first and the last of which are preset.
generate_mac_address_octets :
    (random : Bytes) (prefix suffix : ℕ)
    → length random ≡ 6
    → (length (generate_mac_address random prefix suffix) ≡ 6)
      × (get_elem? (generate_mac_address random prefix suffix) 0 ≡ some prefix)
      × (get_elem? (generate_mac_address random prefix suffix) 5 ≡ some suffix)
unfolding generate_mac_address
generate_mac_address_octets (a ∷ b ∷ c ∷ d ∷ e ∷ f ∷ []) prefix suffix h = (refl, refl, refl)
generate_mac_address_octets _ prefix suffix h = absurd (omega arith)

-- Whatever is drawn, two addresses differ if their first octets do, or their last ones.
pub generate_mac_address-ne :
    (r q : Bytes) (p s p' s' : ℕ)
    → length r ≡ 6
    → length q ≡ 6
    → (p ≢ p') ⊎ (s ≢ s')
    → generate_mac_address r p s ≢ generate_mac_address q p' s'
generate_mac_address-ne r q p s p' s' h k differ e =
    let a = generate_mac_address_octets r p s h in
    let b = generate_mac_address_octets q p' s' k in
    ground (arith, a, b, ap (λ (m : Bytes). get_elem? m 0) e, ap (λ (m : Bytes). get_elem? m 5) e)

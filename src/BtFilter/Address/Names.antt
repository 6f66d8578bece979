-- ===== src/BtFilter/Address/Names.antt =====
-- The map from addresses to names, seen as a function of the address.
use mfi_wrapper.Prelude.{
  ℕ, ◌≡◌, sym, ap, ◌∙◌, true, List, [], ◌∷◌, some, arith, length, if◌then◌else◌, ◌≤◌, length-take,
}
use mfi_wrapper.BtFilter.Address.{
  equal, memcmp, BtAddress, address_of, same, below, is_equal, Names, find, assign,
}
use mfi_wrapper.BtFilter.Address.Order.{flip, memcmp-flip, memcmp_refl, memcmp-equal, memcmp_trans}

abbrev pub IsAddress : BtAddress → Type 0
IsAddress a = length a.address ≡ 6

abbrev pub AllAddresses : Names → Type 0
AllAddresses [] = Unit {0}
AllAddresses ((a, name) ∷ rest) = IsAddress a × AllAddresses rest

pub address_of-IsAddress : (bytes : List ℕ) → 6 ≤ length bytes → IsAddress (address_of bytes)
unfolding address_of
address_of-IsAddress bytes h = omega (arith, length-take 6 bytes)

pub same_refl : (a : BtAddress) → same a a ≡ true
unfolding same
same_refl a = ap is_equal (memcmp_refl a.address)

pub assign-AllAddresses :
    (a : BtAddress) (name : List ℕ) (m : Names)
    → IsAddress a
    → AllAddresses m
    → AllAddresses (assign a name m)
unfolding assign
assign-AllAddresses a name [] h all = (h, tt)
assign-AllAddresses a name ((b, old) ∷ rest) h all =
    ground (arith, assign-AllAddresses a name rest h all.1)

-- The order of three addresses: what the comparisons of `find` and `assign` at one entry decide.
module _ (a b k : BtAddress) (ha : IsAddress a) (hb : IsAddress b) (hk : IsAddress k) where
  same_as_key :
      memcmp a.address k.address ≡ equal → memcmp a.address b.address ≡ memcmp k.address b.address
  same_as_key e = ap (λ x. memcmp x b.address) (memcmp-equal a.address k.address (ha ∙ sym hk) e)

  other_than_key :
      memcmp b.address k.address ≡ equal → memcmp a.address b.address ≡ memcmp a.address k.address
  other_than_key e = ap (memcmp a.address) (memcmp-equal b.address k.address (hb ∙ sym hk) e)

-- In a map whose keys are addresses of six bytes, a name that is assigned to an address is found at
-- it, and every other address keeps its name.
pub find-assign :
    (a b : BtAddress) (name : List ℕ) (m : Names)
    → IsAddress a
    → IsAddress b
    → AllAddresses m
    → find b (assign a name m) ≡ (if same a b then some name else find b m)
unfolding find assign same below
find-assign a b name [] ha hb all = ground (arith, memcmp-flip a.address b.address, flip)
find-assign a b name ((k, old) ∷ rest) ha hb all = ground (
  arith,
  find-assign a b name rest ha hb all.1,
  memcmp-flip a.address b.address,
  memcmp-flip a.address k.address,
  memcmp-flip b.address k.address,
  same_as_key a b k ha hb all.0,
  other_than_key a b k ha hb all.0,
  memcmp_trans b.address a.address k.address (hb ∙ sym ha) (ha ∙ sym all.0),
  memcmp_trans b.address k.address a.address (hb ∙ sym all.0) (all.0 ∙ sym ha),
)

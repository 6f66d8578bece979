-- ===== src/BtFilter/Address.antt =====
-- btserverfilter/src/BTAddress.h, and the map from addresses to names.
pub mod Order
pub mod Names
use mfi_wrapper.Prelude.{
  ℕ, Bool, true, false, ◌&&◌, ◌||◌, List, [], ◌∷◌, Option, none, some, ◌==◌, ltb, if◌then◌else◌,
  take,
}

-- `memcmp` on as many bytes as the shorter list has.
pub data Sign : Type 0 where
  less equal greater : Sign

unfoldable pub memcmp : List ℕ → List ℕ → Sign
memcmp [] ys = equal
memcmp (x ∷ xs) [] = equal
memcmp (x ∷ xs) (y ∷ ys) =
    let rest = memcmp xs ys in if ltb x y then less else if ltb y x then greater else rest

-- BTAddress: six bytes.
pub record BtAddress : Type 0 where
  pub address : List ℕ

unfoldable pub address_of : List ℕ → BtAddress
address_of bytes = record { address = take 6 bytes }

abbrev pub is_equal : Sign → Bool
is_equal equal = true
is_equal _ = false

abbrev pub is_less : Sign → Bool
is_less less = true
is_less _ = false

abbrev pub is_greater : Sign → Bool
is_greater greater = true
is_greater _ = false

-- The comparisons.
unfoldable pub same : BtAddress → BtAddress → Bool
same a b = is_equal (memcmp a.address b.address)

unfoldable pub below : BtAddress → BtAddress → Bool
below a b = is_less (memcmp a.address b.address)

unfoldable pub above : BtAddress → BtAddress → Bool
above a b = is_greater (memcmp a.address b.address)

-- `std::map<BTAddress, std::string>`: entries in the order of `below`.
abbrev pub Names : Type 0
Names = List (BtAddress × List ℕ)

-- `find`: two keys are one if neither is below the other.
unfoldable pub find : BtAddress → Names → Option (List ℕ)
find a [] = none
find a ((b, name) ∷ rest) = if below b a then find a rest else if below a b then none else some name

-- `names[a] = name`.
unfoldable pub assign : BtAddress → List ℕ → Names → Names
assign a name [] = (a, name) ∷ []
assign a name ((b, old) ∷ rest) =
    if same a b
    then (b, name) ∷ rest
    else if below a b
    then (a, name) ∷ (b, old) ∷ rest
    else (b, old) ∷ assign a name rest

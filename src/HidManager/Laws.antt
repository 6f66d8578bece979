-- ===== src/HidManager/Laws.antt =====
-- Names and classes, and reports on their way in and out.
use mfi_wrapper.Prelude.{
  ℕ, ◌+◌, ◌≡◌, ap, ◌∙◌, List, ◌++◌, arith, length, take, drop, ◌==◌, if◌then◌else◌, length-take,
  length-append, length-drop,
}
use mfi_wrapper.Text.{contains, starts_with}
use mfi_wrapper.HidPad.Interface.{PadClass, wii_u_pro, wii_mote, dual_shock4, dummy, connect_class}
use mfi_wrapper.HidManager.{ios_device_name, stored}

-- The class by vendor and product.
abbrev pub ios_class : ℕ → ℕ → PadClass
ios_class vendor product =
    if vendor == 0x54C
    then (if product == 0x5C4 then dual_shock4 else dummy)
    else if vendor == 0x57E
    then (if product == 0x306 then wii_mote else if product == 0x330 then wii_u_pro else dummy)
    else dummy

-- On iOS the name that DeviceAttached gives a device, and the class that HIDPad::Connect chooses by
-- that name, amount to this table: product 0x5C4 of vendor 0x54C is a DualShock 4, products 0x306
-- and 0x330 of vendor 0x57E are a Wii Remote and a Wii U Pro controller, and every other device is
-- of the base class.
ios_classes :
    (vendor product : ℕ) → connect_class (ios_device_name vendor product) ≡ ios_class vendor product
unfolding connect_class ios_device_name contains starts_with
ios_classes vendor product = ground arith

length-stored : (d report : List ℕ) → length d ≡ 2048 → length (stored d report) ≡ 2048
unfolding stored
length-stored d report h =
    let n = length (take 2047 report) in
    let bound = length-take 2047 report in
    length-append (take 1 d ++ take 2047 report) (drop (1 + n) d)
    ∙ ap (λ x. x + length (drop (1 + n) d)) (length-append (take 1 d) (take 2047 report))
    ∙ omega (arith, h, length-take 1 d, bound, length-drop (1 + n) d)

-- ===== src/BtFilter/Pairing.antt =====
-- Pairing with a Wii device, from the events that the hook on `read` sees to the PIN that the hook on
-- `write` sends.
use mfi_wrapper.Prelude.{
  ℕ, zero, suc, ◌+◌, ◌≤◌, ◌<◌, ◌≡◌, refl, ap, ◌∙◌, true, List, [], ◌∷◌, ◌++◌, none, some, arith,
  length, length-append, length-take, length-drop, get_or-append_lt, get_or-append_at, take, drop,
  if◌then◌else◌, ◌==◌,
}
use mfi_wrapper.Prelude.Int.{ℤ, pos, ◌≤ℤ◌}
use mfi_wrapper.Text.{c_string, contains}
use mfi_wrapper.BtFilter.Address.{address_of, Names, find, assign}
use mfi_wrapper.BtFilter.Address.Names.{
  IsAddress, AllAddresses, address_of-IsAddress, same_refl, find-assign,
}
use mfi_wrapper.BtFilter.Defs.{
  remote_name_request_complete, command_complete, Globals, byte, wii_name, pin_packet,
}
use mfi_wrapper.BtFilter.Hooks.{ReadDone, filter_read, filtered_command, new_write}
use mfi_wrapper.BtFilter.Write.{IsCommand, pin_filtered, new_write_filtered}
use mfi_wrapper.BtFilter.Read.{IsEvent, idle, IsLocalAddress, local_address_read, name_read}

-- The bytes in front of a place, and from a place on.
byte-take : (n j : ℕ) (xs : List ℕ) → j < n → byte (take n xs) j ≡ byte xs j
byte-take zero j xs h = absurd (omega arith)
byte-take (suc n) j [] h = refl
byte-take (suc n) zero (x ∷ xs) h = refl
byte-take (suc n) (suc j) (x ∷ xs) h = byte-take n j xs (omega arith)

byte-drop : (n j : ℕ) (xs : List ℕ) → byte (drop n xs) j ≡ byte xs (n + j)
byte-drop zero j xs = ap (byte xs) (omega arith)
byte-drop (suc n) j [] = refl
byte-drop (suc n) j (x ∷ xs) =
    let e : suc n + j ≡ suc (n + j) = omega arith in rw e (byte-drop n j xs)

-- The PIN reply that a packet is to be: 27 bytes, 6 in byte 10, the PIN from byte 11, and the command's bytes
-- elsewhere.
abbrev pub IsPinReply : List ℕ → List ℕ → List ℕ → Type 0
IsPinReply buf pin p =
    (length p ≡ 27)
    × (byte p 10 ≡ 6)
    × ((j : ℕ) → j < 6 → byte p (11 + j) ≡ byte pin j)
    × ((j : ℕ) → j < 10 → byte p j ≡ byte buf j)
    × ((j : ℕ) → byte p (17 + j) ≡ byte buf (17 + j))

module _ (buf pin : List ℕ) (whole : length buf ≡ 27) (six : length pin ≡ 6) where
  front_length : length (take 10 buf) ≡ 10
  front_length = omega (arith, length-take 10 buf, whole)

  pin_packet-IsPinReply : IsPinReply buf pin (pin_packet buf pin)
  unfolding pin_packet
  pin_packet-IsPinReply = (
    omega (
      arith,
      length-append (take 10 buf) (6 ∷ (pin ++ drop 17 buf)),
      length-append pin (drop 17 buf),
      length-drop 17 buf,
      front_length,
      whole,
      six,
    ),
    get_or-append_at (take 10 buf) (6 ∷ (pin ++ drop 17 buf)) 10 0 0 (omega (arith, front_length)),
    λ j h.
        get_or-append_at (take 10 buf) (6 ∷ (pin ++ drop 17 buf)) (11 + j) (suc j) 0
          (omega (arith, front_length))
        ∙ get_or-append_lt j pin (drop 17 buf) 0 (omega (arith, six)),
    λ j h.
        get_or-append_lt j (take 10 buf) (6 ∷ (pin ++ drop 17 buf)) 0 (omega (arith, front_length))
        ∙ byte-take 10 j buf h,
    λ j.
        get_or-append_at (take 10 buf) (6 ∷ (pin ++ drop 17 buf)) (17 + j) (suc (6 + j)) 0
          (omega (arith, front_length))
        ∙ get_or-append_at pin (drop 17 buf) (6 + j) j 0 (omega (arith, six))
        ∙ byte-drop 17 j buf,
  )

-- If the hook on `read` has its filters of name and command events, sees a whole answer to Read
-- Local Address and then a whole answer of at least 255 bytes to a name request, with a name that
-- has the text Nintendo RVL-CNT-01 in it, then a PIN reply of 27 bytes to the same device is written
-- to the radio once, if the system takes that packet, as 27 bytes with a PIN of length 6 (byte 10),
-- the local address from byte 11 and the reply's own bytes elsewhere; and the caller is told that
-- its 27 bytes were written.
pub wii_pin_pairs :
    (g : Globals) (answers : ℕ → ℤ) (local name buf : List ℕ)
    → AllAddresses g.device_names
    → g.read_filters 0x0E ≡ some command_complete
    → g.read_filters 0x07 ≡ some remote_name_request_complete
    → IsLocalAddress local
    → IsEvent 0x07 name
    → 255 ≤ length name
    → contains (c_string (drop 10 name)) wii_name ≡ true
    → IsCommand 0x040D buf
    → length buf ≡ 27
    → address_of (drop 4 buf) ≡ address_of (drop 4 name)
    → pos 1 ≤ℤ answers 0
    → (r r' : ReadDone) × (p : List ℕ) × (filter_read (idle g) local ≡ some r)
      × (filter_read r.globals name ≡ some r')
      × (new_write r'.globals answers r'.globals.bluetooth_socket buf
          ≡ record { result = pos 27; calls = p ∷ [] })
      × IsPinReply buf (take 6 (drop 7 local)) p
wii_pin_pairs g answers local name buf all k₁ k₂ l e long wii cmd n same_device taken = (
  record { globals = after_local; bytes = local },
  record { globals = after_name; bytes = name },
  pin_packet buf (take 6 (drop 7 local)),
  local_address_read g local l k₁,
  name_read after_local name e long k₂,
  new_write_filtered after_name answers buf _ filtered ∙ ground arith,
  pin_packet-IsPinReply buf (take 6 (drop 7 local)) n
      (omega (arith, length-take 6 (drop 7 local), length-drop 7 local, l)),
)
  where
    after_local : Globals
    after_local = record (idle g) {
      local_address = take 6 (drop 7 local);
      read_filters = λ e. if e == 0x0E then none else g.read_filters e;
    }

    named : Names
    named = assign (address_of (drop 4 name)) (c_string (drop 10 name)) g.device_names

    after_name : Globals
    after_name = record after_local { device_names = named }

    device : IsAddress (address_of (drop 4 name))
    device = address_of-IsAddress (drop 4 name) (omega (arith, length-drop 4 name))

    found : find (address_of (drop 4 buf)) named ≡ some (c_string (drop 10 name))
    found =
        ap (λ a. find a named) same_device
        ∙ find-assign (address_of (drop 4 name)) (address_of (drop 4 name))
            (c_string (drop 10 name)) g.device_names device device all
        ∙ rw (same_refl (address_of (drop 4 name)))

    filtered : filtered_command after_name buf ≡ some (pin_packet buf (take 6 (drop 7 local)))
    filtered = pin_filtered after_name answers buf (c_string (drop 10 name)) cmd n found wii

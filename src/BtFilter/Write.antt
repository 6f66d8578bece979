-- ===== src/BtFilter/Write.antt =====
-- The hook on `write`: which packets reach the radio.
use mfi_wrapper.Prelude.{
  ℕ, ◌+◌, ◌*◌, ◌^◌, ◌≡◌, ◌≢◌, sym, ◌∙◌, ◌⊎◌, inl, inr, true, false, List, [], ◌∷◌, none, some,
  arith, length, length-set, get_or-set_ne, get_or-set_self, set, drop, ==_true, ==_false,
  if◌then◌else◌,
}
use mfi_wrapper.Prelude.Int.{ℤ, pos, ◌≤ℤ◌, leb_ℤ}
use mfi_wrapper.Text.{contains}
use mfi_wrapper.BtFilter.Address.{address_of, find}
use mfi_wrapper.BtFilter.Defs.{
  Globals, byte, wii_name, pin_packet, filter_accept_connection_request_command,
  filter_pin_code_request_reply_command,
}
use mfi_wrapper.BtFilter.Hooks.{same_file, filtered_command, new_write}

-- The opcode of a command packet.
abbrev pub opcode : List ℕ → ℕ
opcode buf = 2 ^ 8 * byte buf 2 + byte buf 1

abbrev pub IsCommand : ℕ → List ℕ → Type 0
IsCommand op buf = (byte buf 0 ≡ 1) × (opcode buf ≡ op)

-- What is written to another file than the Bluetooth socket, is no command, or is a command with
-- another opcode than 0x0409 and 0x040D, is written once, unchanged, and the caller is told the
-- system's answer.
pub new_write_other :
    (g : Globals) (answers : ℕ → ℤ) (file : ℤ) (buf : List ℕ)
    → (same_file file g.bluetooth_socket ≡ false)
      ⊎ (byte buf 0 ≢ 1)
      ⊎ ((opcode buf ≢ 0x0409) × (opcode buf ≢ 0x040D))
    → new_write g answers file buf ≡ record { result = answers 0; calls = buf ∷ [] }
unfolding new_write filtered_command
new_write_other g answers file buf h = ground arith

pub same_file_refl : (a : ℤ) → same_file a a ≡ true
same_file_refl a = ground arith

module _ (g : Globals) (answers : ℕ → ℤ) (buf : List ℕ) where
  -- When a filter changes a command, the changed packet is written in its place and the caller is
  -- told that the whole command was written if the system takes it; if the system does not, the
  -- command itself is written too, and the caller is told the answer to that.
  pub new_write_filtered :
      (packet : List ℕ)
      → filtered_command g buf ≡ some packet
      → new_write g answers g.bluetooth_socket buf ≡ (
          if leb_ℤ (pos 1) (answers 0)
          then record { result = pos (length buf); calls = packet ∷ [] }
          else record { result = answers 1; calls = packet ∷ buf ∷ [] })
  unfolding new_write
  new_write_filtered packet e = rw (same_file_refl g.bluetooth_socket, e, new_write)

  accept_filtered :
      IsCommand 0x0409 buf → length buf ≡ 11 → filtered_command g buf ≡ some (set buf 10 0)
  unfolding filtered_command filter_accept_connection_request_command
  accept_filtered h n = ground arith

  -- A command of 11 bytes that accepts a connection request is written to the radio once, with byte
  -- 10 set to the role of master and no other change, and the caller is told that 11 bytes were
  -- written, if the system takes that packet.
  accept_as_master :
      IsCommand 0x0409 buf
      → length buf ≡ 11
      → pos 1 ≤ℤ answers 0
      → (packet : List ℕ) × (new_write g answers g.bluetooth_socket buf
          ≡ record { result = pos 11; calls = packet ∷ [] })
        × (length packet ≡ 11)
        × (byte packet 10 ≡ 0)
        × ((j : ℕ) → j ≢ 10 → byte packet j ≡ byte buf j)
  accept_as_master h n taken = (
    set buf 10 0,
    new_write_filtered (set buf 10 0) (accept_filtered h n) ∙ ground arith,
    length-set buf 10 0 ∙ n,
    get_or-set_self buf 10 0 0 (omega (arith, n)),
    λ j ne. get_or-set_ne buf 10 j 0 0 (λ e. ne (sym e)),
  )

  -- The PIN for a Wii device is the local address.
  pub pin_filtered :
      (name : List ℕ)
      → IsCommand 0x040D buf
      → length buf ≡ 27
      → find (address_of (drop 4 buf)) g.device_names ≡ some name
      → contains name wii_name ≡ true
      → filtered_command g buf ≡ some (pin_packet buf g.local_address)
  unfolding filtered_command filter_pin_code_request_reply_command
  pin_filtered name (cmd, op) n found wii = rw (
    ==_true (byte buf 0) 1 cmd,
    ==_false (opcode buf) 0x0409 (omega (arith, op)),
    ==_true (opcode buf) 0x040D op,
    ==_true (length buf) 27 n,
    found,
    wii,
  )

  -- A PIN reply to a device with no known name, or with a name that has not the text Nintendo
  -- RVL-CNT-01 in it, is written to the radio once, unchanged, and the caller is told the system's
  -- answer.
  pin_kept :
      IsCommand 0x040D buf
      → (find (address_of (drop 4 buf)) g.device_names ≡ none)
        ⊎ ((name : List ℕ) × (find (address_of (drop 4 buf)) g.device_names ≡ some name)
            × (contains name wii_name ≡ false))
      → new_write g answers g.bluetooth_socket buf ≡ record { result = answers 0; calls = buf ∷ [] }
  unfolding new_write filtered_command filter_pin_code_request_reply_command
  pin_kept h (inl unknown) = ground arith
  pin_kept h (inr (name, found, other)) = ground arith

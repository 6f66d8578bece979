-- ===== src/BtFilter/Defs.antt =====
-- The state and the filters of btserverfilter/src/BTServerFilter.cpp.
use mfi_wrapper.Prelude.{
  ℕ, ◌+◌, ◌-◌, ◌%◌, ◌^◌, ◌||◌, List, [], ◌∷◌, ◌++◌, Option, none, some, length, get_or, set, take,
  drop, replicate, ltb, ◌==◌, ◌!=◌, if◌then◌else◌,
}
use mfi_wrapper.Prelude.Int.{ℤ, negsuc}
use mfi_wrapper.Text.{codes, c_string, contains}
use mfi_wrapper.BtFilter.Address.{address_of, Names, find, assign}

-- The functions of `ReadFilters`.
pub data ReadFilter : Type 0 where
  remote_name_request_complete command_complete inquiry_result : ReadFilter

-- The globals. The context of a packet in parts is kept between reads.
pub record Globals : Type 0 where
  pub bluetooth_socket : ℤ
  pub device_names : Names
  pub local_address : List ℕ
  pub read_filters : ℕ → Option ReadFilter
  pub context : List ℕ

-- A byte of a buffer. The hook on `write` reads the first three bytes of any buffer; where they are
-- missing, C++ leaves open what it reads, and here it is 0.
abbrev pub byte : List ℕ → ℕ → ℕ
byte d i = get_or d i 0

-- The table of read filters, as `entry` fills it.
unfoldable pub entry_filters : ℕ → Option ReadFilter
entry_filters e =
    if e == 0x07
    then some remote_name_request_complete
    else if e == 0x0E
    then some command_complete
    else if e == 0x22
    then some inquiry_result
    else if e == 0x2F
    then some inquiry_result
    else none

unfoldable pub entry : Globals
entry = record {
  bluetooth_socket = negsuc 0;
  device_names = [];
  local_address = replicate 6 0;
  read_filters = entry_filters;
  context = [];
}

-- ReadContext: the bytes that this read returns, where they start in the context, and the context.
pub record ReadContext : Type 0 where
  pub data_bytes : List ℕ
  pub offset : ℕ
  pub size : ℕ
  pub context : List ℕ

-- ReadContext::WriteByte. `none` is a store out of bounds: one behind the context, or one in front of
-- the bytes of this read.
unfoldable pub write_byte : ReadContext → ℕ → ℕ → Option ReadContext
write_byte c i v =
    if ltb (length c.context) i
    then some c
    else if i == length c.context
    then none
    else if ltb i (c.offset + c.size)
    then (if ltb i c.offset
        then none
        else some (record c {
          context = set c.context i v;
          data_bytes = set c.data_bytes (i - c.offset) v;
        }))
    else some (record c { context = set c.context i v })

-- A filter's new globals and context.
pub record Filtered : Type 0 where
  pub globals : Globals
  pub read_context : ReadContext

unfoldable pub filter_remote_name_request_complete_event : Globals → ReadContext → Filtered
filter_remote_name_request_complete_event g c =
    if ltb c.size 255 then record { globals = g; read_context = c } else record {
      globals = record g {
        device_names =
            assign (address_of (drop 4 c.context)) (c_string (drop 10 c.context)) g.device_names;
      };
      read_context = c;
    }

unfoldable pub filter_command_complete_event : Globals → ReadContext → Filtered
filter_command_complete_event g c =
    if ltb c.size 13 || (byte c.context 4 != 0x09 || byte c.context 5 != 0x10)
    then record { globals = g; read_context = c }
    else record {
      globals = record g {
        local_address = take 6 (drop 7 c.context);
        read_filters = λ e. if e == 0x0E then none else g.read_filters e;
      };
      read_context = c;
    }

unfoldable pub filter_inquiry_result_event_general : ReadContext → Option ReadContext
filter_inquiry_result_event_general c =
    if ltb c.size 0x10 || byte c.context 3 != 1
    then some c
    else if byte c.context 13 % 2 ^ 5 == 0x05
    then write_byte c 12 0x40
    else some c

unfoldable pub run_filter : ReadFilter → Globals → ReadContext → Option Filtered
run_filter remote_name_request_complete g c = some (filter_remote_name_request_complete_event g c)
run_filter command_complete g c = some (filter_command_complete_event g c)
run_filter inquiry_result g c = elim (filter_inquiry_result_event_general c) [
  | none ↦ none
  | some c' ↦ some (record { globals = g; read_context = c' })
]

-- The text that marks a Wii device's name.
abbrev pub wii_name : List ℕ
wii_name = codes "Nintendo RVL-CNT-01"

-- The packet that a write filter sends in place of the command; `none` is a filter that lets it be.
unfoldable pub filter_accept_connection_request_command : List ℕ → Option (List ℕ)
filter_accept_connection_request_command buf =
    if length buf == 11 then some (set buf 10 0) else none

-- `newPacket` with the length of the PIN and the PIN.
unfoldable pub pin_packet : List ℕ → List ℕ → List ℕ
pin_packet buf pin = take 10 buf ++ (6 ∷ (pin ++ drop 17 buf))

unfoldable pub filter_pin_code_request_reply_command : Globals → List ℕ → Option (List ℕ)
filter_pin_code_request_reply_command g buf =
    let name = find (address_of (drop 4 buf)) g.device_names in
    if length buf == 27
    then elim name [
      | none ↦ none
      | some n ↦ if contains n wii_name then some (pin_packet buf g.local_address) else none
    ]
    else none

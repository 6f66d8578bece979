-- ===== src/BtFilter/Read.antt =====
-- The hook on `read`: what the Bluetooth server sees of the radio's packets, and what the hook keeps.
use mfi_wrapper.Prelude.{
  ℕ, ◌+◌, ◌-◌, ◌%◌, ◌^◌, ◌≤◌, ◌<◌, ◌≡◌, refl, ap, ◌∙◌, List, [], ◌++◌, none, some, arith, length,
  length-append, set, take, drop, ==_true, ltb-false, lt→ltb, !=_false, dec_lt, ℕ_discrete, le→leb,
  if◌then◌else◌, ◌==◌,
}
use mfi_wrapper.Text.{c_string}
use mfi_wrapper.BtFilter.Address.{address_of, assign}
use mfi_wrapper.BtFilter.Defs.{
  ReadFilter, remote_name_request_complete, command_complete, inquiry_result, Globals, byte,
  ReadContext, write_byte, Filtered, filter_remote_name_request_complete_event,
  filter_command_complete_event, filter_inquiry_result_event_general, run_filter,
}
use mfi_wrapper.BtFilter.Hooks.{packet_size, run_filters, filter_read}

-- A whole event packet: its kind, and its length by byte 2.
pub record IsEvent (code : ℕ) (p : List ℕ) : Type 0 where
  pub kind : byte p 0 ≡ 0x04
  pub event : byte p 1 ≡ code
  pub sized : length p ≡ byte p 2 + 3

-- The context that a read of these bytes hands to the filters, behind bytes of earlier reads.
abbrev pub context_of : List ℕ → List ℕ → ReadContext
context_of before bytes = record {
  data_bytes = bytes;
  offset = length before;
  size = length (before ++ bytes);
  context = before ++ bytes;
}

-- The hook with no packet in parts.
abbrev pub idle : Globals → Globals
idle g = record g { context = [] }

packet_size-event :
    (p : List ℕ) → byte p 0 ≡ 0x04 → 3 ≤ length p → packet_size p ≡ some (byte p 2 + 3)
unfolding packet_size
packet_size-event p kind long = rw (==_true (byte p 0) 4 kind, ltb-false (length p) 3 long)

run_filters-event :
    (g : Globals) (c : ReadContext) (f : ReadFilter)
    → byte c.context 0 ≡ 0x04
    → g.read_filters (byte c.context 1) ≡ some f
    → run_filters g c ≡ run_filter f g c
unfolding run_filters
run_filters-event g c f kind known = rw (==_true (byte c.context 0) 4 kind, known, run_filters)

-- A read that completes an event, whose filter is `f`, runs the filter and forgets the context.
pub filter_read_completes :
    (g : Globals) (bytes : List ℕ) (code : ℕ) (f : ReadFilter) (out : Filtered)
    → IsEvent code (g.context ++ bytes)
    → g.read_filters code ≡ some f
    → run_filter f g (context_of g.context bytes) ≡ some out
    → out.read_context.size ≡ length (g.context ++ bytes)
    → filter_read g bytes
      ≡ some (record {
        globals = record out.globals { context = [] };
        bytes = out.read_context.data_bytes;
      })
unfolding filter_read
filter_read_completes g bytes code f out p known runs same_size =
    rw
      (
        packet_size-event (g.context ++ bytes) p.kind (omega (arith, p.sized)),
        run_filters-event g (context_of g.context bytes) f p.kind
            (ap g.read_filters p.event ∙ known),
        runs,
        filter_read,
      )
      (rw
        (le→leb (byte (g.context ++ bytes) 2 + 3) out.read_context.size
          (omega (arith, same_size, p.sized)))
        refl)

-- The device class of an inquiry result with one response is that of a peripheral.
pub record IsPeripheral (p : List ℕ) : Type 0 where
  pub long_enough : 16 ≤ length p
  pub one_response : byte p 3 ≡ 1
  pub major_class : byte p 13 % 2 ^ 5 ≡ 0x05

-- The hook with the first bytes of a packet from earlier reads.
abbrev pub holding : List ℕ → Globals → Globals
holding before g = record g { context = before }

write_class :
    (before bytes : List ℕ)
    → length before ≤ 12
    → IsPeripheral (before ++ bytes)
    → filter_inquiry_result_event_general (context_of before bytes)
      ≡ some (record (context_of before bytes) {
        context = set (before ++ bytes) 12 0x40;
        data_bytes = set bytes (12 - length before) 0x40;
      })
unfolding filter_inquiry_result_event_general write_byte
write_class before bytes early per = ground (arith, per.long_enough, per.one_response)

-- If at most 12 bytes of an inquiry result came with earlier reads and the next read completes it,
-- and it has one response, of the major class Peripheral, in at least 16 bytes, then the Bluetooth
-- server sees the bytes of this read with byte 12 of the packet set to 0x40 and no other change, and
-- the hook keeps no packet in parts.
pub inquiry_patched :
    (g : Globals) (before bytes : List ℕ) (code : ℕ)
    → length before ≤ 12
    → IsEvent code (before ++ bytes)
    → g.read_filters code ≡ some inquiry_result
    → IsPeripheral (before ++ bytes)
    → filter_read (holding before g) bytes
      ≡ some (record { globals = idle g; bytes = set bytes (12 - length before) 0x40 })
unfolding run_filter
inquiry_patched g before bytes code early e known per =
    filter_read_completes (holding before g) bytes code inquiry_result
      (record {
        globals = holding before g;
        read_context = record (context_of before bytes) {
          context = set (before ++ bytes) 12 0x40;
          data_bytes = set bytes (12 - length before) 0x40;
        };
      })
      e known (rw (write_class before bytes early per, run_filter)) refl

-- If more than 12 bytes of an inquiry result came with earlier reads, and with the next read it has
-- one response, of the major class Peripheral, in at least 16 bytes, then the filter stores outside
-- of the bytes of this read.
pub inquiry_out_of_bounds :
    (g : Globals) (before bytes : List ℕ) (code : ℕ)
    → 12 < length before
    → byte (before ++ bytes) 0 ≡ 0x04
    → byte (before ++ bytes) 1 ≡ code
    → g.read_filters code ≡ some inquiry_result
    → IsPeripheral (before ++ bytes)
    → filter_read (holding before g) bytes ≡ none
unfolding filter_read run_filter filter_inquiry_result_event_general write_byte
inquiry_out_of_bounds g before bytes code late kind event known per =
    rw
      (
        packet_size-event (before ++ bytes) kind (omega (arith, per.long_enough)),
        run_filters-event (holding before g) (context_of before bytes) inquiry_result kind
            (ap g.read_filters event ∙ known),
        filter_read,
      )
      (ground (arith, per.long_enough, per.one_response, length-append before bytes))

kept :
    (c : ReadContext)
    → c.size ≡ length c.context
    → ¬ IsPeripheral c.context
    → filter_inquiry_result_event_general c ≡ some c
unfolding filter_inquiry_result_event_general
kept c whole other = elim (dec_lt (length c.context) 16) [
  | yes short ↦ rw (lt→ltb c.size 16 (omega (arith, whole)))
  | no long ↦ elim (ℕ_discrete (byte c.context 3) 1) [
    | no more ↦ ground arith
    | yes one ↦ elim (ℕ_discrete (byte c.context 13 % 2 ^ 5) 5) [
      | no class ↦ ground arith
      | yes class ↦
          absurd
            (other (record { long_enough = omega arith; one_response = one; major_class = class }))
    ]
  ]
]

-- Of a whole inquiry result that does not have one response, of the major class Peripheral, in at
-- least 16 bytes, the Bluetooth server sees the bytes of the last read unchanged, and the hook keeps
-- no packet in parts.
inquiry_kept :
    (g : Globals) (before bytes : List ℕ) (code : ℕ)
    → IsEvent code (before ++ bytes)
    → g.read_filters code ≡ some inquiry_result
    → ¬ IsPeripheral (before ++ bytes)
    → filter_read (holding before g) bytes ≡ some (record { globals = idle g; bytes = bytes })
unfolding run_filter
inquiry_kept g before bytes code e known other =
    filter_read_completes (holding before g) bytes code inquiry_result
      (record { globals = holding before g; read_context = context_of before bytes }) e known
      (rw (kept (context_of before bytes) refl other, run_filter)) refl

-- The answer to the command Read Local Address.
pub record IsLocalAddress (p : List ℕ) : Type 0 where
  pub event : IsEvent 0x0E p
  pub long_enough : 13 ≤ length p
  pub opcode_low : byte p 4 ≡ 0x09
  pub opcode_high : byte p 5 ≡ 0x10

-- With no packet in parts and the filter of command events on, a whole answer to Read Local Address
-- sets the local address to its bytes 7 to 12, takes the filter off, and is seen by the Bluetooth
-- server unchanged.
pub local_address_read :
    (g : Globals) (p : List ℕ)
    → IsLocalAddress p
    → g.read_filters 0x0E ≡ some command_complete
    → filter_read (idle g) p
      ≡ some (record {
        globals = record (idle g) {
          local_address = take 6 (drop 7 p);
          read_filters = λ e. if e == 0x0E then none else g.read_filters e;
        };
        bytes = p;
      })
unfolding run_filter filter_command_complete_event
local_address_read g p a known =
    filter_read_completes (idle g) p 0x0E command_complete
      (record {
        globals = record (idle g) {
          local_address = take 6 (drop 7 p);
          read_filters = λ e. if e == 0x0E then none else g.read_filters e;
        };
        read_context = context_of [] p;
      })
      a.event known
      (rw (
        ltb-false (length p) 13 a.long_enough,
        !=_false (byte p 4) 0x09 a.opcode_low,
        !=_false (byte p 5) 0x10 a.opcode_high,
      ))
      refl

-- With no packet in parts and the filter of name events on, a whole answer of at least 255 bytes to
-- a name request files the name from byte 10 under the address from byte 4, and is seen by the
-- Bluetooth server unchanged.
pub name_read :
    (g : Globals) (p : List ℕ)
    → IsEvent 0x07 p
    → 255 ≤ length p
    → g.read_filters 0x07 ≡ some remote_name_request_complete
    → filter_read (idle g) p
      ≡ some (record {
        globals = record (idle g) {
          device_names = assign (address_of (drop 4 p)) (c_string (drop 10 p)) g.device_names;
        };
        bytes = p;
      })
unfolding run_filter filter_remote_name_request_complete_event
name_read g p e long known =
    filter_read_completes (idle g) p 0x07 remote_name_request_complete
      (record {
        globals = record (idle g) {
          device_names = assign (address_of (drop 4 p)) (c_string (drop 10 p)) g.device_names;
        };
        read_context = context_of [] p;
      })
      e known (rw (ltb-false (length p) 255 long)) refl

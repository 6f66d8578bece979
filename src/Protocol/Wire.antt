-- ===== src/Protocol/Wire.antt =====
-- The packets of include/protocol.h as bytes in memory (`#pragma pack(1)`): a header of size, type
-- and handle, and the selected member of the union.
use mfi_wrapper.Prelude.{
  ℕ, ◌+◌, ◌*◌, ◌/◌, ◌%◌, ◌^◌, List, [], ◌∷◌, ◌++◌, Option, none, some, get_or, take, drop, ◌==◌,
  if◌then◌else◌,
}
use mfi_wrapper.Protocol.{
  ConnectPacket, InputState, DataPacket, connect, disconnect, input_state, set_player_index,
  pause_pressed, packet_connect, packet_disconnect, packet_input_state, packet_set_player_index,
  packet_pause_pressed,
}

-- A `uint32_t` in memory, the low byte first.
unfoldable pub le32 : ℕ → List ℕ
le32 n = n % 256 ∷ n / 2 ^ 8 % 256 ∷ n / 2 ^ 16 % 256 ∷ n / 2 ^ 24 % 256 ∷ []

-- The `uint32_t` that the first four bytes hold.
unfoldable pub word : List ℕ → ℕ
word m = get_or m 0 0 + 2 ^ 8 * get_or m 1 0 + 2 ^ 16 * get_or m 2 0 + 2 ^ 24 * get_or m 3 0

unfoldable pub size_of : List ℕ → ℕ
size_of m = word m

unfoldable pub type_of : List ℕ → ℕ
type_of m = word (drop 4 m)

unfoldable pub handle_of : List ℕ → ℕ
handle_of m = word (drop 8 m)

-- Size, type and handle.
unfoldable pub header : ℕ → ℕ → ℕ → List ℕ
unfolding le32
header size type handle = le32 size ++ (le32 type ++ le32 handle)

-- The members of the union, as bytes.
unfoldable pub connect_bytes : ConnectPacket → List ℕ
connect_bytes p = p.vendor_name ++ (le32 p.present_controls ++ le32 p.analog_controls)

-- The floats of a state, in the order of the structure.
abbrev pub state_words : InputState ℕ → List ℕ
state_words s =
    s.dpad_x ∷ s.dpad_y ∷ s.a ∷ s.b ∷ s.x ∷ s.y ∷ s.left_shoulder ∷ s.right_shoulder
    ∷ s.left_stick_x ∷ s.left_stick_y ∷ s.right_stick_x ∷ s.right_stick_y ∷ s.left_trigger
    ∷ s.right_trigger ∷ s.select ∷ s.start ∷ s.left_stick_button ∷ s.right_stick_button ∷ []

unfoldable pub words_bytes : List ℕ → List ℕ
words_bytes [] = []
words_bytes (w ∷ ws) = le32 w ++ words_bytes ws

unfoldable pub state_bytes : InputState ℕ → List ℕ
unfolding words_bytes
state_bytes s = words_bytes (state_words s)

-- The members of the union, as the receiver reads them at offset 12.
unfoldable pub connect_of : List ℕ → ConnectPacket
connect_of m = record {
  vendor_name = take 256 (drop 12 m);
  present_controls = word (drop 268 m);
  analog_controls = word (drop 272 m);
}

unfoldable pub state_of : List ℕ → InputState ℕ
state_of m = record {
  dpad_x = word (drop 12 m);
  dpad_y = word (drop 16 m);
  a = word (drop 20 m);
  b = word (drop 24 m);
  x = word (drop 28 m);
  y = word (drop 32 m);
  left_shoulder = word (drop 36 m);
  right_shoulder = word (drop 40 m);
  left_stick_x = word (drop 44 m);
  left_stick_y = word (drop 48 m);
  right_stick_x = word (drop 52 m);
  right_stick_y = word (drop 56 m);
  left_trigger = word (drop 60 m);
  right_trigger = word (drop 64 m);
  select = word (drop 68 m);
  start = word (drop 72 m);
  left_stick_button = word (drop 76 m);
  right_stick_button = word (drop 80 m);
}

-- The packet that a receiver's `switch` on the type sees; `none` is its default branch.
unfoldable pub decode : List ℕ → Option DataPacket
unfolding type_of handle_of
decode m =
    if type_of m == packet_connect
    then some (connect (handle_of m) (connect_of m))
    else if type_of m == packet_disconnect
    then some (disconnect (handle_of m))
    else if type_of m == packet_input_state
    then some (input_state (handle_of m) (state_of m))
    else if type_of m == packet_set_player_index
    then some (set_player_index (handle_of m) (word (drop 12 m)))
    else if type_of m == packet_pause_pressed
    then some (pause_pressed (handle_of m))
    else none

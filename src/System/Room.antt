-- ===== src/System/Room.antt =====
-- The room in the buffers of the socket pair of src/backend/backend.cpp. Its ends do not block
-- (src/common.cpp), so that a `write` takes a packet whole only while its buffer has room for it.
use mathlib.Core.Path.{subst}
use mfi_wrapper.Prelude.{
  ℕ, ◌+◌, ◌*◌, ◌≤◌, ◌≡◌, ◌!=◌, sym, ap, ◌∙◌, ◌&&◌, List, [], ◌∷◌, ◌++◌, Option, none, some, leb,
  arith, if◌then◌else◌, Bool-cases, Option-cases, inl, inr, unsome, none_not,
}
use mfi_wrapper.Protocol.{
  DataPacket, InputState, local_handle, connect, disconnect, input_state, set_player_index,
  pause_pressed, generic_size, connect_size, input_state_size, set_player_index_size,
}
use mfi_wrapper.Frontend.Manager.{
  Frontend, Reaction, dispatch, place, set_controller_index, handle_packet_connect,
  handle_packet_disconnect, handle_packet_input_state, target,
}
use mfi_wrapper.Frontend.Controller.{player_index_unset}
use mfi_wrapper.Prelude.Int.{ℤ}
use mfi_wrapper.System.{System}

-- How many bytes a sender writes for a packet: its `Size`.
abbrev pub packet_bytes : DataPacket → ℕ
packet_bytes (connect handle p) = connect_size
packet_bytes (disconnect handle) = generic_size
packet_bytes (input_state handle s) = input_state_size
packet_bytes (set_player_index handle i) = set_player_index_size
packet_bytes (pause_pressed handle) = generic_size

-- The bytes of packets that wait.
abbrev pub waiting : List DataPacket → ℕ
waiting [] = 0
waiting (p ∷ ps) = packet_bytes p + waiting ps

pub waiting-append : (ps qs : List DataPacket) → waiting (ps ++ qs) ≡ waiting ps + waiting qs
waiting-append [] qs = omega arith
waiting-append (p ∷ ps) qs = omega (arith, waiting-append ps qs)

abbrev pub HasRoom : {Float : Type 0} → ℕ → System Float → Type 0
HasRoom room s = (waiting s.to_frontend ≤ room) × (waiting s.to_backend ≤ room)

-- Room for the frontend's answers to so many packets.
abbrev pub HasAnswerRoom : {Float : Type 0} → ℕ → ℕ → System Float → Type 0
HasAnswerRoom room n s = waiting s.to_backend + n * set_player_index_size ≤ room

module _ {Float : Type 0} (room : ℕ) where
  -- The state that an event leaves, if the sockets took all of its packets whole.
  abbrev pub written : System Float → Option (System Float)
  written s =
      if leb (waiting s.to_frontend) room && leb (waiting s.to_backend) room then some s else none

  pub written_lem : (s : System Float) → HasRoom room s → written s ≡ some s
  written_lem s (front, back) = ground (arith, front, back)

  pub written-HasRoom : (s s' : System Float) → written s ≡ some s' → (s ≡ s') × HasRoom room s'
  written-HasRoom s s' e =
      elim (Bool-cases (leb (waiting s.to_frontend) room && leb (waiting s.to_backend) room)) [
        | inl h ↦
            let same = unsome (rw h at e) in
            (same, subst (HasRoom room) same (ground (arith, h), ground (arith, h)))
        | inr h ↦ absurd (none_not (rw h at e))
      ]

quiet_input :
    (f : Frontend) (handle : ℕ) (s : InputState ℕ)
    → (handle_packet_input_state f handle s).sent ≡ []
unfolding handle_packet_input_state
quiet_input f handle s = elim (Option-cases (target f handle)) [
  | inl e ↦ rw (handle_packet_input_state, e)
  | inr (_, e) ↦ rw (handle_packet_input_state, e)
]

quiet_disconnect :
    (f : Frontend) (handle : ℕ) (r : Reaction)
    → handle_packet_disconnect f handle ≡ some r
    → r.sent ≡ []
unfolding handle_packet_disconnect
quiet_disconnect f handle r e = elim (Option-cases f.controllers) [
  | inl null ↦ ap (λ x. x.sent) (sym (unsome (rw (handle_packet_disconnect, null) at e)))
  | inr (cs, array) ↦
      let turn = rw (handle_packet_disconnect, array) at e in
      elim (Option-cases (place handle cs)) [
        | inl missing ↦ absurd (none_not (rw missing at turn))
        | inr (_, found) ↦ ap (λ x. x.sent) (sym (unsome (rw found at turn)))
      ]
]

index-waiting :
    (f : Frontend) (handle : ℕ) (i : ℤ)
    → waiting (set_controller_index f handle i) ≤ set_player_index_size
unfolding set_controller_index
index-waiting f handle i = elim (Bool-cases (f.is_connected && handle != local_handle)) [
  | inl e ↦ rw e (omega arith)
  | inr e ↦ rw e (omega arith)
]

quiet-waiting : (ps : List DataPacket) → ps ≡ [] → waiting ps ≤ set_player_index_size
quiet-waiting ps e = rw e (omega arith)

-- A packet that the frontend takes makes it write one packet at most.
pub dispatch-waiting :
    (f : Frontend) (p : DataPacket) (r : Reaction)
    → dispatch f (some p) ≡ some r
    → waiting r.sent ≤ set_player_index_size
unfolding dispatch handle_packet_connect
dispatch-waiting f (connect handle p) r e =
    subst (λ x. waiting x.sent ≤ set_player_index_size) (unsome e)
      (index-waiting f handle player_index_unset)
dispatch-waiting f (disconnect handle) r e = quiet-waiting r.sent (quiet_disconnect f handle r e)
dispatch-waiting f (input_state handle s) r e =
    quiet-waiting r.sent (ap (λ x. x.sent) (sym (unsome e)) ∙ quiet_input f handle s)
dispatch-waiting f (set_player_index handle i) r e =
    quiet-waiting r.sent (ap (λ x. x.sent) (sym (unsome e)))
dispatch-waiting f (pause_pressed handle) r e =
    quiet-waiting r.sent (ap (λ x. x.sent) (sym (unsome e)))

-- ===== src/Frontend/Manager/Laws.antt =====
-- The list of controllers that the frontend keeps, as the list of their handles.
use mathlib.Core.Option
use mfi_wrapper.Prelude.{
  ℕ, zero, suc, ◌≡◌, refl, sym, ap, ◌∙◌, inl, inr, List, [], ◌∷◌, ◌++◌, Option, none, some, arith,
  ◌==◌, if◌then◌else◌, Bool-cases, Option-cases, unsome, none_not,
}
use mfi_wrapper.Prelude.Int.{ℤ}
use mfi_wrapper.Protocol.{
  InputState, DataPacket, connect, disconnect, input_state, set_player_index, pause_pressed,
}
use mfi_wrapper.Frontend.Controller.{
  Controller, controller_for_handle, player_index_unset, tweak_update_buttons,
}
use mfi_wrapper.Frontend.Manager.{
  Frontend, Reaction, find_controller_by_handle, at, replace_at, remove_at, place,
  handle_packet_connect, handle_packet_disconnect, target, handle_packet_input_state,
  handle_packet_pause_pressed, indexed, set_controller_index, dispatch,
}

abbrev pub handles_of : List Controller → List ℕ
handles_of [] = []
handles_of (c ∷ cs) = c.tweak_handle ∷ handles_of cs

abbrev pub handles : Frontend → List ℕ
handles f = elim f.controllers [ none ↦ [] | some cs ↦ handles_of cs ]

-- What a packet asks of a list of handles: a connection adds its handle at the end, and a disconnection
-- takes the first such handle out, and needs one.
unfoldable pub without : ℕ → List ℕ → Option (List ℕ)
without handle [] = none
without handle (h ∷ hs) =
    let rest = Option.map (λ hs'. h ∷ hs') (without handle hs) in
    if h == handle then some hs else rest

unfoldable pub follow : DataPacket → List ℕ → Option (List ℕ)
unfolding without
follow (connect handle p) hs = some (hs ++ handle ∷ [])
follow (disconnect handle) hs = if handle == 0 then none else without handle hs
follow (input_state handle s) hs = some hs
follow (set_player_index handle i) hs = some hs
follow (pause_pressed handle) hs = some hs

handles_of-append :
    (cs : List Controller) (c : Controller)
    → handles_of (cs ++ c ∷ []) ≡ handles_of cs ++ c.tweak_handle ∷ []
handles_of-append [] c = refl
handles_of-append (d ∷ cs) c = ap (λ hs. d.tweak_handle ∷ hs) (handles_of-append cs c)

-- Where the controller is found, it is taken out.
abbrev removed : List Controller → Option ℕ → Option (List ℕ)
removed cs o = Option.map (λ i. handles_of (remove_at cs i)) o

removed-later :
    (c : Controller) (cs : List Controller) (o : Option ℕ)
    → removed (c ∷ cs) (Option.map suc o) ≡ Option.map (λ hs. c.tweak_handle ∷ hs) (removed cs o)
unfolding remove_at
removed-later c cs none = refl
removed-later c cs (some i) = refl

removed-without :
    (handle : ℕ) (cs : List Controller)
    → removed cs (find_controller_by_handle handle cs) ≡ without handle (handles_of cs)
unfolding find_controller_by_handle without remove_at
removed-without handle [] = refl
removed-without handle (c ∷ cs) = elim (Bool-cases (c.tweak_handle == handle)) [
  | inl e ↦ rw e
  | inr e ↦ rw e (
      removed-later c cs (find_controller_by_handle handle cs)
      ∙ ap (Option.map (λ hs. c.tweak_handle ∷ hs)) (removed-without handle cs))
]

abbrev handle_or_zero : Option Controller → ℕ
handle_or_zero none = 0
handle_or_zero (some c) = c.tweak_handle

handles_of-replace :
    (cs : List Controller) (i : ℕ) (c new : Controller)
    → at cs i ≡ some c
    → new.tweak_handle ≡ c.tweak_handle
    → handles_of (replace_at cs i new) ≡ handles_of cs
unfolding at replace_at
handles_of-replace [] i c new e h = refl
handles_of-replace (d ∷ cs) zero c new e h =
    ap (λ k. k ∷ handles_of cs) (h ∙ ap (handle_or_zero) (sym e))
handles_of-replace (d ∷ cs) (suc i) c new e h =
    ap (λ hs. d.tweak_handle ∷ hs) (handles_of-replace cs i c new e h)

-- A frontend with its array.
abbrev pub with_array : Frontend → List Controller → Frontend
with_array f cs = record f { controllers = some cs }

-- The handles that a reaction leaves.
abbrev pub left_by : Option Reaction → Option (List ℕ)
left_by r = Option.map (λ x. handles x.frontend) r

pub handles_of-indexed :
    (handle : ℕ) (i : ℤ) (cs : List Controller) → handles_of (indexed handle i cs) ≡ handles_of cs
unfolding indexed
handles_of-indexed handle i [] = refl
handles_of-indexed handle i (c ∷ cs) = ground (arith, handles_of-indexed handle i cs)

disconnect_follows :
    (f : Frontend) (cs : List Controller) (handle : ℕ)
    → left_by (handle_packet_disconnect (with_array f cs) handle)
      ≡ (if handle == 0 then none else without handle (handles_of cs))
unfolding handle_packet_disconnect place
disconnect_follows f cs handle = elim (Bool-cases (handle == 0)) [
  | inl e ↦ rw (handle_packet_disconnect, place, e)
  | inr e ↦ elim (Option-cases (find_controller_by_handle handle cs)) [
    | inl missing ↦
        rw (handle_packet_disconnect, place, e, missing)
          (ap (removed cs) (sym missing) ∙ removed-without handle cs)
    | inr (i, found) ↦
        rw (handle_packet_disconnect, place, e, found)
          (ap (removed cs) (sym found) ∙ removed-without handle cs)
  ]
]

input_follows :
    (f : Frontend) (cs : List Controller) (handle : ℕ) (s : InputState ℕ)
    → handles (handle_packet_input_state (with_array f cs) handle s).frontend ≡ handles_of cs
unfolding handle_packet_input_state target tweak_update_buttons
input_follows f cs handle s = elim (Option-cases (place handle cs)) [
  | inl e ↦ rw (handles, handle_packet_input_state, target, e)
  | inr (i, e) ↦ elim (Option-cases (at cs i)) [
    | inl none_there ↦ rw (handles, handle_packet_input_state, target, e, none_there)
    | inr (c, there) ↦
        rw (handles, handle_packet_input_state, target, e, there)
          (handles_of-replace cs i c _ there refl)
  ]
]

disconnect_array :
    (f : Frontend) (cs : List Controller) (handle : ℕ) (r : Reaction)
    → handle_packet_disconnect (with_array f cs) handle ≡ some r
    → (cs' : List Controller) × (r.frontend ≡ with_array f cs') × (r.sent ≡ [])
unfolding handle_packet_disconnect
disconnect_array f cs handle r e = elim (Option-cases (place handle cs)) [
  | inl missing ↦ absurd (none_not (rw (handle_packet_disconnect, missing) at e))
  | inr (i, found) ↦
      let e' = unsome (rw (handle_packet_disconnect, found) at e) in
      (remove_at cs i, ap (λ x. x.frontend) (sym e'), ap (λ x. x.sent) (sym e'))
]

input_array :
    (f : Frontend) (cs : List Controller) (handle : ℕ) (s : InputState ℕ)
    → let r = handle_packet_input_state (with_array f cs) handle s in
      (cs' : List Controller) × (r.frontend ≡ with_array f cs') × (r.sent ≡ [])
unfolding handle_packet_input_state target
input_array f cs handle s = elim (Option-cases (place handle cs)) [
  | inl e ↦
      (cs, rw (handle_packet_input_state, target, e), rw (handle_packet_input_state, target, e))
  | inr (i, e) ↦ elim (Option-cases (at cs i)) [
    | inl none_there ↦ (
      cs,
      rw (handle_packet_input_state, target, e, none_there),
      rw (handle_packet_input_state, target, e, none_there),
    )
    | inr (c, there) ↦ (
      replace_at cs i (tweak_update_buttons c s).0,
      rw (handle_packet_input_state, target, e, there),
      rw (handle_packet_input_state, target, e, there),
    )
  ]
]

-- What the frontend sends back for a packet: a new controller's player index, unset.
unfoldable pub answer : Frontend → DataPacket → List DataPacket
answer f (connect handle p) = set_controller_index f handle player_index_unset
answer f (disconnect handle) = []
answer f (input_state handle s) = []
answer f (set_player_index handle i) = []
answer f (pause_pressed handle) = []

-- A packet that the list of handles can follow.
abbrev pub Follows : Frontend → List Controller → DataPacket → List ℕ → Type 0
Follows f cs p hs =
    (r : Reaction) × (cs' : List Controller) × (dispatch (with_array f cs) (some p) ≡ some r)
    × (r.frontend ≡ with_array f cs')
    × (handles_of cs' ≡ hs)
    × (r.sent ≡ answer f p)

pub dispatch-Follows :
    (f : Frontend) (cs : List Controller) (p : DataPacket) (hs : List ℕ)
    → follow p (handles_of cs) ≡ some hs
    → Follows f cs p hs
unfolding dispatch follow answer handle_packet_connect controller_for_handle set_controller_index
dispatch-Follows f cs (connect handle p) hs e = (
  handle_packet_connect (with_array f cs) handle p,
  cs ++ controller_for_handle handle p ∷ [],
  refl,
  refl,
  handles_of-append cs _ ∙ unsome e,
  refl,
)
dispatch-Follows f cs (disconnect handle) hs e =
    elim (Option-cases (handle_packet_disconnect (with_array f cs) handle)) [
      | inl raised ↦
          absurd (none_not (ap left_by (sym raised) ∙ disconnect_follows f cs handle ∙ e))
      | inr (r, returns) ↦
          let (cs', kept, silent) = disconnect_array f cs handle r returns in
          let left = ap left_by (sym returns) ∙ disconnect_follows f cs handle ∙ e in
          (r, cs', returns, kept, ap handles (sym kept) ∙ unsome left, silent)
    ]
dispatch-Follows f cs (input_state handle s) hs e =
    let (cs', kept, silent) = input_array f cs handle s in
    (
      handle_packet_input_state (with_array f cs) handle s,
      cs',
      refl,
      kept,
      ap handles (sym kept) ∙ input_follows f cs handle s ∙ unsome e,
      silent,
    )
dispatch-Follows f cs (set_player_index handle i) hs e =
    (record { frontend = with_array f cs; calls = []; sent = [] }, cs, refl, refl, unsome e, refl)
dispatch-Follows f cs (pause_pressed handle) hs e = (
  record {
    frontend = with_array f cs;
    calls = handle_packet_pause_pressed (with_array f cs) handle;
    sent = [];
  },
  cs,
  refl,
  refl,
  unsome e,
  refl,
)

-- A packet that the list of the handles of the frontend's controllers cannot follow (a disconnection
-- for the handle 0, or for a handle that no controller has) makes HandlePacket raise an exception.
pub dispatch_raises :
    (f : Frontend) (cs : List Controller) (p : DataPacket)
    → follow p (handles_of cs) ≡ none
    → dispatch (with_array f cs) (some p) ≡ none
unfolding dispatch follow
dispatch_raises f cs (connect handle p) e = absurd (none_not (sym e))
dispatch_raises f cs (disconnect handle) e =
    elim (Option-cases (handle_packet_disconnect (with_array f cs) handle)) [
      | inl raised ↦ raised
      | inr (r, returns) ↦
          absurd (none_not (sym (disconnect_follows f cs handle ∙ e) ∙ ap left_by returns))
    ]
dispatch_raises f cs (input_state handle s) e = absurd (none_not (sym e))
dispatch_raises f cs (set_player_index handle i) e = absurd (none_not (sym e))
dispatch_raises f cs (pause_pressed handle) e = absurd (none_not (sym e))

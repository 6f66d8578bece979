-- ===== src/Frontend/Manager/Arrays.antt =====
-- The controllers in the array of src/frontend/frontend.mm, over the packets that are handled.
use mathlib.Core.Option
use mathlib.Core.Path.{subst}
use mfi_wrapper.Prelude.{
  ℕ, zero, suc, ◌≡◌, refl, sym, ap, ◌∙◌, inl, inr, true, false, List, [], ◌∷◌, ◌++◌, Option, none,
  some, arith, ◌==◌, ==_true, Bool-cases, Option-cases, unsome, none_not,
}
use mfi_wrapper.Prelude.Int.{ℤ}
use mfi_wrapper.Protocol.{
  InputState, DataPacket, Button, connect, disconnect, input_state, set_player_index, pause_pressed,
}
use mfi_wrapper.Protocol.Wire.{state_words}
use mfi_wrapper.Frontend.Element.Walk.{NoNan, same_values}
use mfi_wrapper.Frontend.Controller.{Controller, controller_for_handle, tweak_update_buttons}
use mfi_wrapper.Frontend.Controller.Laws.{
  IsController, controller_for_handle-IsController, update-IsController,
}
use mfi_wrapper.Frontend.Gamepad.{extended_gamepad_for_controller, property, shown_at}
use mfi_wrapper.Frontend.Gamepad.Laws.{field, properties_show_packet}
use mfi_wrapper.Frontend.Manager.{
  Frontend, Reaction, find_controller_by_handle, at, replace_at, remove_at, place, target,
  handle_packet_connect, handle_packet_disconnect, handle_packet_input_state, indexed, dispatch,
}
use mfi_wrapper.Frontend.Manager.Laws.{with_array}

abbrev pub AllControllers : List Controller → Type 0
AllControllers [] = Unit
AllControllers (c ∷ cs) = IsController c × AllControllers cs

append-AllControllers :
    (cs : List Controller) (c : Controller)
    → AllControllers cs
    → IsController c
    → AllControllers (cs ++ c ∷ [])
append-AllControllers [] c h k = (k, tt)
append-AllControllers (d ∷ cs) c (h, hs) k = (h, append-AllControllers cs c hs k)

remove-AllControllers :
    (cs : List Controller) (i : ℕ) → AllControllers cs → AllControllers (remove_at cs i)
unfolding remove_at
remove-AllControllers [] i h = tt
remove-AllControllers (c ∷ cs) zero (h, hs) = hs
remove-AllControllers (c ∷ cs) (suc i) (h, hs) = (h, remove-AllControllers cs i hs)

replace-AllControllers :
    (cs : List Controller) (i : ℕ) (c : Controller)
    → AllControllers cs
    → IsController c
    → AllControllers (replace_at cs i c)
unfolding replace_at
replace-AllControllers [] i c h k = tt
replace-AllControllers (d ∷ cs) zero c (h, hs) k = (k, hs)
replace-AllControllers (d ∷ cs) (suc i) c (h, hs) k = (h, replace-AllControllers cs i c hs k)

at-IsController :
    (cs : List Controller) (i : ℕ) (c : Controller)
    → AllControllers cs
    → at cs i ≡ some c
    → IsController c
unfolding at
at-IsController [] i c h e = absurd (none_not e)
at-IsController (d ∷ cs) zero c (h, hs) e = subst IsController (unsome e) h
at-IsController (d ∷ cs) (suc i) c (h, hs) e = at-IsController cs i c hs e

pub indexed-AllControllers :
    (handle : ℕ) (i : ℤ) (cs : List Controller)
    → AllControllers cs
    → AllControllers (indexed handle i cs)
unfolding indexed
indexed-AllControllers handle i [] h = tt
indexed-AllControllers handle i (c ∷ cs) (h, hs) = elim (Bool-cases (c.tweak_handle == handle)) [
  | inl e ↦
      rw e (record { layout = h.layout; agree = h.agree }, indexed-AllControllers handle i cs hs)
  | inr e ↦ rw e (h, indexed-AllControllers handle i cs hs)
]

-- A reaction that leaves an array of controllers.
abbrev pub Leaves : Frontend → Reaction → Type 0
Leaves f r = (cs : List Controller) × (r.frontend ≡ with_array f cs) × AllControllers cs

disconnect-Leaves :
    (f : Frontend) (cs : List Controller) (handle : ℕ) (r : Reaction)
    → handle_packet_disconnect (with_array f cs) handle ≡ some r
    → AllControllers cs
    → Leaves f r
unfolding handle_packet_disconnect
disconnect-Leaves f cs handle r e h = elim (Option-cases (place handle cs)) [
  | inl missing ↦ absurd (none_not (rw (handle_packet_disconnect, missing) at e))
  | inr (i, found) ↦
      let e' = unsome (rw (handle_packet_disconnect, found) at e) in
      (remove_at cs i, ap (λ x. x.frontend) (sym e'), remove-AllControllers cs i h)
]

input-Leaves :
    (f : Frontend) (cs : List Controller) (handle : ℕ) (s : InputState ℕ)
    → AllControllers cs
    → Leaves f (handle_packet_input_state (with_array f cs) handle s)
unfolding handle_packet_input_state target
input-Leaves f cs handle s h = elim (Option-cases (place handle cs)) [
  | inl e ↦ (cs, rw (handle_packet_input_state, target, e), h)
  | inr (i, e) ↦ elim (Option-cases (at cs i)) [
    | inl none_there ↦ (cs, rw (handle_packet_input_state, target, e, none_there), h)
    | inr (c, there) ↦ (
      replace_at cs i (tweak_update_buttons c s).0,
      rw (handle_packet_input_state, target, e, there),
      replace-AllControllers cs i _ h (update-IsController c s (at-IsController cs i c h there)),
    )
  ]
]

pub dispatch-Leaves :
    (f : Frontend) (cs : List Controller) (p : DataPacket) (r : Reaction)
    → dispatch (with_array f cs) (some p) ≡ some r
    → AllControllers cs
    → Leaves f r
unfolding dispatch handle_packet_connect
dispatch-Leaves f cs (connect handle p) r e h = subst (Leaves f) (unsome e) (
  cs ++ controller_for_handle handle p ∷ [],
  refl,
  append-AllControllers cs _ h (controller_for_handle-IsController handle p),
)
dispatch-Leaves f cs (disconnect handle) r e h = disconnect-Leaves f cs handle r e h
dispatch-Leaves f cs (input_state handle s) r e h =
    subst (Leaves f) (unsome e) (input-Leaves f cs handle s h)
dispatch-Leaves f cs (set_player_index handle i) r e h = subst (Leaves f) (unsome e) (cs, refl, h)
dispatch-Leaves f cs (pause_pressed handle) r e h = subst (Leaves f) (unsome e) (cs, refl, h)

-- The controller that packets for a handle reach shows values for a control, through the property of
-- its extended gamepad.
abbrev pub Sees : Frontend → ℕ → Button → List ℕ → Type 0
Sees f handle k vs =
    (cs : List Controller) × (i : ℕ) × (c : Controller) × (target f handle ≡ some (cs, i, c))
    × (c.tweak_handle ≡ handle)
    × (same_values (shown_at c.tweak_elements (property extended_gamepad_for_controller k)) vs
        ≡ true)

same_handle :
    (c : Controller) (s : InputState ℕ) → (tweak_update_buttons c s).0.tweak_handle ≡ c.tweak_handle
unfolding tweak_update_buttons
same_handle c s = refl

later : (o : Option ℕ) (i : ℕ) → Option.map suc o ≡ some (suc i) → o ≡ some i
later none i e = absurd (none_not e)
later (some j) i e = ground (arith, e)

-- A controller in the place of the first with its handle is the first with its handle.
find-replace :
    (handle : ℕ) (cs : List Controller) (i : ℕ) (c d : Controller)
    → find_controller_by_handle handle cs ≡ some i
    → at cs i ≡ some c
    → d.tweak_handle ≡ handle
    → (find_controller_by_handle handle (replace_at cs i d) ≡ some i)
      × (at (replace_at cs i d) i ≡ some d)
unfolding find_controller_by_handle at replace_at
find-replace handle [] i c d found there named = absurd (none_not found)
find-replace handle (x ∷ cs) zero c d found there named =
    (rw (==_true d.tweak_handle handle named), refl)
find-replace handle (x ∷ cs) (suc i) c d found there named =
    elim (Bool-cases (x.tweak_handle == handle)) [
      | inl e ↦ absurd (ground (arith, found, e))
      | inr e ↦
          let (found', there') =
            find-replace handle cs i c d
              (later (find_controller_by_handle handle cs) i (rw e at found)) there named in
          (rw (e, found'), there')
    ]

place_lem :
    (handle : ℕ) (cs : List Controller)
    → (handle == 0) ≡ false
    → place handle cs ≡ find_controller_by_handle handle cs
unfolding place
place_lem handle cs e = rw e

target_lem :
    (f : Frontend) (cs : List Controller) (handle i : ℕ) (c : Controller)
    → place handle cs ≡ some i
    → at cs i ≡ some c
    → target (with_array f cs) handle ≡ some (cs, i, c)
unfolding target
target_lem f cs handle i c placed there = rw (target, placed, there)

input_lem :
    (f : Frontend) (cs : List Controller) (handle i : ℕ) (c : Controller) (s : InputState ℕ)
    → target (with_array f cs) handle ≡ some (cs, i, c)
    → (handle_packet_input_state (with_array f cs) handle s).frontend
      ≡ with_array f (replace_at cs i (tweak_update_buttons c s).0)
unfolding handle_packet_input_state
input_lem f cs handle i c s aimed = rw (handle_packet_input_state, aimed)

-- A packet for a controller that is found.
pub input-Sees :
    (f : Frontend) (cs : List Controller) (handle i : ℕ) (c : Controller) (s : InputState ℕ)
    (k : Button)
    → (handle == 0) ≡ false
    → find_controller_by_handle handle cs ≡ some i
    → at cs i ≡ some c
    → c.tweak_handle ≡ handle
    → AllControllers cs
    → NoNan (state_words s)
    → Sees (handle_packet_input_state (with_array f cs) handle s).frontend handle k (field s k)
input-Sees f cs handle i c s k nonzero found there named h n =
    let c' = (tweak_update_buttons c s).0 in
    let cs' = replace_at cs i c' in
    let aimed = target_lem f cs handle i c (place_lem handle cs nonzero ∙ found) there in
    let (found', there') = find-replace handle cs i c c' found there (same_handle c s ∙ named) in
    let aimed' = target_lem f cs' handle i c' (place_lem handle cs' nonzero ∙ found') there' in
    (
      cs',
      i,
      c',
      ap (λ g. target g handle) (input_lem f cs handle i c s aimed) ∙ aimed',
      same_handle c s ∙ named,
      properties_show_packet c s k (at-IsController cs i c h there) n,
    )

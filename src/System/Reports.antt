-- ===== src/System/Reports.antt =====
-- A report of a device on its way to the application.
use mathlib.Core.Path.{subst}
use mfi_wrapper.Prelude.{
  ℕ, zero, suc, ◌≡◌, ◌≢◌, refl, sym, ap, ◌∙◌, inl, inr, Bool, false, List, [], ◌∷◌, ◌++◌, none,
  some, length, arith, ◌==◌, Bool-cases, unsome, none_not, length-append, append_assoc,
}
use mfi_wrapper.Protocol.{DataPacket, InputState, Button, input_state}
use mfi_wrapper.Protocol.Wire.{state_words}
use mfi_wrapper.Backend.Defs as Backend
use mfi_wrapper.Backend.Registry.{controller}
use mfi_wrapper.HidPad.Float.{FloatOps, FloatLaws}
use mfi_wrapper.HidPad.Effect.{Effect, send_controller_state, Outcome}
use mfi_wrapper.HidPad.Quiet.{AllQuiet}
use mfi_wrapper.HidPad.Interface as Interface
use mfi_wrapper.HidPad.Interface.{Pad, describe}
use mfi_wrapper.HidPad.Interface.Laws.{handle_packet-Serves}
use mfi_wrapper.Frontend.Controller.{Controller}
use mfi_wrapper.Frontend.Element.Walk.{NoNan}
use mfi_wrapper.Frontend.Gamepad.Laws.{field}
use mfi_wrapper.Frontend.Manager as Manager
use mfi_wrapper.Frontend.Manager.{Frontend, find_controller_by_handle, at}
use mfi_wrapper.Frontend.Manager.Laws.{handles_of, follow}
use mfi_wrapper.Frontend.Manager.Arrays.{Sees, input-Sees}
use mfi_wrapper.HidManager.{stored, packet_size}
use mfi_wrapper.System.{
  Device, System, Port, state_bits, perform, perform_one, device_report, after_method,
  frontend_receives, deliver_to_frontend,
}
use mfi_wrapper.System.Calls.{perform-SendsInput, perform-append}
use mfi_wrapper.System.Memory.{lookup}
use mfi_wrapper.System.Queue.{count, follow_all}
use mfi_wrapper.System.Invariant.{presence}
use mfi_wrapper.System.Arrays.{Reachable-IsArray}
use mfi_wrapper.System.Safety.{
  reported, frontend_turn, handled, step, handled-step, step-handled, Reachable, next,
  Reachable-IsSystem, pointers_are_live,
}
use mfi_wrapper.System.Room.{HasRoom, HasAnswerRoom}
use mfi_wrapper.System.Drain.{turns, turns-suc, one_turn, up_to_last}

-- A handle that the list has is found.
found_lem :
    (handle : ℕ) (cs : List Controller)
    → count handle (handles_of cs) ≢ 0
    → (i : ℕ) × (c : Controller) × (find_controller_by_handle handle cs ≡ some i)
      × (at cs i ≡ some c)
      × (c.tweak_handle ≡ handle)
unfolding find_controller_by_handle at
found_lem handle [] h = absurd (h refl)
found_lem handle (c ∷ cs) h = elim (Bool-cases (c.tweak_handle == handle)) [
  | inl e ↦ (0, c, rw e, refl, ground (arith, e))
  | inr e ↦
      let (i, d, found, there, named) = found_lem handle cs (λ z. h (ground (arith, e, z))) in
      (suc i, d, rw (e, found), there, named)
]

AllQuiet-front : {Float : Type 0} (xs ys : List (Effect Float)) → AllQuiet (xs ++ ys) → AllQuiet xs
AllQuiet-front [] ys h = tt
AllQuiet-front (x ∷ xs) ys (h, hs) = (h, AllQuiet-front xs ys hs)

named_handle :
    (b : Backend.Backend) (h id : ℕ)
    → Backend.find 0 b.devices ≡ none
    → controller b h ≡ some id
    → (h == 0) ≡ false
unfolding controller
named_handle b zero id unnamed e = absurd (none_not (rw (unnamed, controller) at e))
named_handle b (suc h) id unnamed e = ground arith

module _ (F : FloatOps) where
  open F use {Float}

  -- What a method leaves at the end of the queue, if a state is its last call.
  last_sent :
      (d : Backend.Description) (id : ℕ) (port : Port) (front : List (Effect Float))
      (i : InputState Float)
      → AllQuiet front
      → (ps : List DataPacket) × ((perform F d id port (front ++ send_controller_state i ∷ [])).sent
          ≡ port.sent ++ (ps ++ input_state port.own_handle (state_bits F i) ∷ []))
        × ((perform F d id port (front ++ send_controller_state i ∷ [])).registry ≡ port.registry)
  unfolding perform perform_one Backend.send_controller_state
  last_sent d id port front i quiet =
      let (ps, ends, _) = perform-SendsInput F d id port front quiet in
      (
        ps,
        ap (λ q. q.sent) (perform-append F d id port front (send_controller_state i ∷ []))
            ∙ ap (λ q. q.sent ++ input_state q.own_handle (state_bits F i) ∷ []) ends
            ∙ append_assoc port.sent ps (input_state port.own_handle (state_bits F i) ∷ []),
        ap (λ q. q.registry) (perform-append F d id port front (send_controller_state i ∷ []))
            ∙ ap (λ q. q.registry) ends,
      )

  module _ (ios : Bool) (room : ℕ) (L : FloatLaws F) where
    -- The last packet is an input state of a registered controller.
    last_seen :
        (h id : ℕ) (v : InputState ℕ) (k : Button) (s : System Float)
        → Reachable F ios room s
        → s.to_frontend ≡ input_state h v ∷ []
        → controller s.backend h ≡ some id
        → NoNan (state_words v)
        → (t : System Float) × (deliver_to_frontend F s ≡ some t) × Sees t.frontend h k (field v k)
    unfolding deliver_to_frontend frontend_receives follow_all follow Manager.dispatch controller
    last_seen h id v k s before waits registered plain =
        let good = Reachable-IsSystem F ios room L s before in
        let shown = good.shown in
        let (cs, array, controllers) = Reachable-IsArray F ios room s before in
        let same : handles_of shown.listed ≡ shown.at_end = unsome (rw waits at shown.replays) in
        let turn : deliver_to_frontend F s ≡ frontend_receives F (input_state h v) [] s =
          simp (deliver_to_frontend, waits) in
        let listed : cs ≡ shown.listed =
          unsome (ap (λ f. f.controllers) (sym array ∙ shown.array)) in
        let once : count h (handles_of cs) ≡ 1 =
          ap (λ l. count h (handles_of l)) listed
          ∙ ap (count h) same
          ∙ shown.counts h
          ∙ ap presence registered in
        let (i, c, found, there, named) = found_lem h cs (λ z. absurd (omega (arith, z, once))) in
        let nonzero = named_handle s.backend h id good.linked.unnamed registered in
        let sees = input-Sees s.frontend cs h i c v k nonzero found there named controllers plain in
        (
          _,
          turn,
          subst (λ f. Sees (Manager.handle_packet_input_state f h v).frontend h k (field v k))
              (sym array) sees,
        )

    -- The step of a report whose handling ends with an input state.
    abbrev Sent : ℕ → List ℕ → ℕ → InputState ℕ → System Float → System Float → Type 0
    Sent id report h v s s' =
        (q : List DataPacket) × (handled F ios room (reported id report) s ≡ some s')
        × (s'.to_frontend ≡ q ++ input_state h v ∷ [])
        × (s'.backend ≡ s.backend)

    report_sends :
        (h id : ℕ) (report : List ℕ) (i : InputState Float) (front : List (Effect Float))
        (s : System Float) (dev : Device Float) (r : Outcome (List ℕ × Pad Float) Float)
        → Reachable F ios room s
        → controller s.backend h ≡ some id
        → lookup id s.connections ≡ some dev
        → Interface.handle_packet F s.report_buffer dev.pad
            (stored dev.data_bytes report)
            (packet_size report)
          ≡ some r
        → r.effects ≡ front ++ send_controller_state i ∷ []
        → (s' : System Float) × Sent id report h (state_bits F i) s s'
    unfolding device_report after_method
    report_sends h id report i front s dev r before registered there returns sends =
        let port : Port = record { registry = s.backend; own_handle = dev.handle; sent = [] } in
        let linked = (Reachable-IsSystem F ios room L s before).linked in
        let (r', returns', _, quiet') =
          handle_packet-Serves F L s.report_buffer dev.pad (stored dev.data_bytes report)
            (packet_size report) (linked.pads id dev there) in
        let all_quiet =
          subst AllQuiet (ap (λ x. x.effects) (unsome (sym returns' ∙ returns)) ∙ sends) quiet' in
        let quiet = AllQuiet-front front (send_controller_state i ∷ []) all_quiet in
        let (ps, sent, kept) = last_sent (describe dev.class) id port front i quiet in
        let (dev', there', named') = pointers_are_live F ios room L s h id before registered in
        let named = ap (λ x. x.handle) (unsome (sym there ∙ there')) ∙ named' in
        let effects = ap (perform F (describe dev.class) id port) sends in
        let left =
          after_method F id dev (record { state = r.state.1; effects = r.effects })
            (Interface.data_after F dev.pad (stored dev.data_bytes report) (packet_size report))
            r.state.0 s in
        (
          left,
          (
            s.to_frontend ++ ps,
            rw (there, returns),
            ap (λ x. s.to_frontend ++ x.sent) effects
                ∙ ap (◌++◌ s.to_frontend) sent
                ∙ ap (λ n. s.to_frontend ++ (ps ++ input_state n (state_bits F i) ∷ [])) named
                ∙ sym (append_assoc s.to_frontend ps (input_state h (state_bits F i) ∷ [])),
            ap (λ x. x.registry) effects ∙ kept,
          ),
        )

    -- Under the laws assumed of `float`, and for sockets whose buffers hold any fixed number of
    -- bytes: in every state that steps lead to, for a handle that the registry holds a pointer for,
    -- if that live object's HandlePacket of a report calls SendControllerState last, with floats
    -- whose patterns are no NaN, and the buffers have room for the packets that wait behind it and
    -- for a player index in answer to each that waits for the frontend, then the report's step
    -- succeeds; as many turns of the frontend as packets then wait for it succeed too; and behind
    -- them FindControllerByHandle finds a controller with this handle, and the element that the
    -- extended gamepad's property for any control points at has values equal as floats to this
    -- control's fields in the state that the object sent.
    pub report_is_shown :
        (h id : ℕ) (report : List ℕ) (i : InputState Float) (k : Button)
        (front : List (Effect Float)) (s : System Float) (dev : Device Float)
        (r : Outcome (List ℕ × Pad Float) Float)
        → Reachable F ios room s
        → controller s.backend h ≡ some id
        → lookup id s.connections ≡ some dev
        → Interface.handle_packet F s.report_buffer dev.pad
            (stored dev.data_bytes report)
            (packet_size report)
          ≡ some r
        → r.effects ≡ front ++ send_controller_state i ∷ []
        → NoNan (state_words (state_bits F i))
        → ((u : System Float)
            → handled F ios room (reported id report) s ≡ some u
            → HasRoom room u × HasAnswerRoom room (length u.to_frontend) u)
        → (s' t : System Float) × (step F ios room (reported id report) s ≡ some s')
          × (turns F ios room (length s'.to_frontend) s' ≡ some t)
          × Sees t.frontend h k (field (state_bits F i) k)
    report_is_shown h id report i k front s dev r before registered there returns sends plain
          rooms =
        let (s', found) =
          report_sends h id report i front s dev r before registered there returns sends in
        let (q, works, queue, kept) = found in
        let p = input_state h (state_bits F i) in
        let (room_now, answers) = rooms s' works in
        let steps = handled-step F ios room (reported id report) s s' works room_now in
        let possible = λ (e : lookup id s.connections ≡ none). none_not (sym e ∙ there) in
        let room_after : (u : System Float)
            → handled F ios room (reported id report) s ≡ some u
            → HasRoom room u =
          λ u e. (rooms u e).0 in
        let after = next (reported id report) s s' before (possible, room_after) steps in
        let count : length s'.to_frontend ≡ suc (length q) =
          ap length queue ∙ length-append q (p ∷ []) ∙ omega arith in
        let enough = subst (λ n. HasAnswerRoom room n s') count answers in
        let (mid, most, arrived, last, same, one_left) =
          up_to_last F ios room L q p s' after enough queue in
        let (t, turn, _, _, _, _) = one_turn F ios room L 0 mid p [] arrived one_left last in
        let (t', taken, sees) =
          last_seen h id (state_bits F i) k mid arrived last
            (ap (λ b. controller b h) (same ∙ kept) ∙ registered) plain in
        let end = unsome (sym taken ∙ (step-handled F ios room frontend_turn mid t turn).0) in
        (
          s',
          t,
          steps,
          ap (λ n. turns F ios room n s') count
              ∙ turns-suc F ios room (length q) s' mid most
              ∙ turn,
          subst (λ x. Sees x.frontend h k (field (state_bits F i) k)) end sees,
        )

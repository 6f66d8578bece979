-- ===== src/System/Calls.antt =====
-- What the calls of a controller change.
use mfi_wrapper.Prelude.{ℕ, ◌≡◌, refl, sym, ap, ◌∙◌, List, [], ◌∷◌, ◌++◌, append-nil, append_assoc}
use mfi_wrapper.Protocol.{DataPacket, input_state, pause_pressed}
use mfi_wrapper.Backend.Defs.{Description}
use mfi_wrapper.Backend.Defs as Backend
use mfi_wrapper.HidPad.Float.{FloatOps}
use mfi_wrapper.HidPad.Effect.{
  Effect, set_report, get_report, finalize_connection, send_pause_pressed, send_controller_state,
  sleep,
}
use mfi_wrapper.HidPad.Quiet.{IsQuiet, AllQuiet}
use mfi_wrapper.System.{Port, state_bits, perform_one, perform}
use mfi_wrapper.System.Queue.{AllInput, AllInput-append}

module _ (F : FloatOps) (d : Description) (id : ℕ) where
  open F use {Float}

  -- A port to which packets were sent.
  abbrev pub sending : Port → List DataPacket → Port
  sending port ps = record port { sent = port.sent ++ ps }

  sending-nil : (port : Port) → port ≡ sending port []
  sending-nil port = ap (λ ps. record port { sent = ps }) (sym (append-nil port.sent))

  sending-sending :
      (port : Port) (ps qs : List DataPacket)
      → sending (sending port ps) qs ≡ sending port (ps ++ qs)
  sending-sending port ps qs = ap (λ rs. record port { sent = rs }) (append_assoc port.sent ps qs)

  abbrev pub SendsInput : Port → Port → Type 0
  SendsInput port after = (ps : List DataPacket) × (after ≡ sending port ps) × AllInput ps

  one-SendsInput :
      (port : Port) (e : Effect Float) → IsQuiet e → SendsInput port (perform_one F d id port e)
  unfolding perform_one Backend.send_controller_state Backend.send_pause_pressed
  one-SendsInput port finalize_connection h = absurd h
  one-SendsInput port send_pause_pressed h = (pause_pressed port.own_handle ∷ [], refl, (tt, tt))
  one-SendsInput port (send_controller_state s) h =
      (input_state port.own_handle (state_bits F s) ∷ [], refl, (tt, tt))
  one-SendsInput port (set_report feature n bytes) h = ([], sending-nil port, tt)
  one-SendsInput port (get_report feature n size) h = ([], sending-nil port, tt)
  one-SendsInput port (sleep n) h = ([], sending-nil port, tt)

  pub perform-SendsInput :
      (port : Port) (es : List (Effect Float))
      → AllQuiet es
      → SendsInput port (perform F d id port es)
  unfolding perform
  perform-SendsInput port [] h = ([], sending-nil port, tt)
  perform-SendsInput port (e ∷ es) h =
      let (ps, now, inputs) = one-SendsInput port e h.0 in
      let (qs, later, more) = perform-SendsInput (perform_one F d id port e) es h.1 in
      (
        ps ++ qs,
        later ∙ ap (λ p. sending p qs) now ∙ sending-sending port ps qs,
        AllInput-append ps qs inputs more,
      )

  pub perform-append :
      (port : Port) (xs ys : List (Effect Float))
      → perform F d id port (xs ++ ys) ≡ perform F d id (perform F d id port xs) ys
  unfolding perform
  perform-append port [] ys = refl
  perform-append port (x ∷ xs) ys = perform-append (perform_one F d id port x) xs ys

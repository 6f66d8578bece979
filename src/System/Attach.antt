-- ===== src/System/Attach.antt =====
-- The step in which a device is attached: its object is made and enters the registry.
use mathlib.Core.Path.{subst}
use mfi_wrapper.Prelude.{
  ℕ, ◌+◌, ◌^◌, ◌<◌, ◌≡◌, ◌≢◌, refl, ap, ◌∙◌, ◌⊎◌, inl, inr, Bool, List, [], ◌∷◌, ◌++◌, none, arith,
  append_assoc, ==_iff,
}
use mfi_wrapper.Protocol.{DataPacket, connect}
use mfi_wrapper.Backend.Defs.{Backend, Description, connect_packet, attach_controller}
use mfi_wrapper.Backend.Lifecycle.{attach_adds_controller}
use mfi_wrapper.HidPad.Float.{FloatOps, FloatLaws}
use mfi_wrapper.HidPad.Effect.{Effect, finalize_connection}
use mfi_wrapper.HidPad.Quiet.{AllQuiet}
use mfi_wrapper.HidPad.WiiUPro.{Calibrations}
use mfi_wrapper.HidPad.Interface as Interface
use mfi_wrapper.HidPad.Interface.{
  Pad, other, PadClass, playstation3, wii_u_pro, wii_mote, dual_shock4, dummy, connect_class,
  describe,
}
use mfi_wrapper.HidPad.Interface.Laws.{open_pad-Opens}
use mfi_wrapper.HidManager.{blank_data}
use mfi_wrapper.System.{Device, System, Port, perform_one, perform, device_attached}
use mfi_wrapper.System.Memory.{lookup, put}
use mfi_wrapper.System.Queue.{AllInput}
use mfi_wrapper.System.Calls.{perform-SendsInput, perform-append}
use mfi_wrapper.System.Invariant.{IsShown, IsSystem}
use mfi_wrapper.System.Links.{more_inputs}
use mfi_wrapper.System.Messages.{Steps}
use mfi_wrapper.System.Entry.{
  attach-unnamed, attach-positive, IsShown-With, fresh-IsLinked, With-origin, With-keeps,
}

module _ (F : FloatOps) (L : FloatLaws F) where
  open F use {Float}

  -- The constructor's calls: the frontend is told of the controller, and the registry has it.
  constructor_calls :
      (b : Backend) (d : Description) (id : ℕ) (es before after : List (Effect Float))
      → es ≡ before ++ finalize_connection ∷ after
      → AllQuiet before
      → AllQuiet after
      → let r = attach_controller b id d in
        (ps : List DataPacket) × (qs : List DataPacket) × (perform F d id
            (record { registry = b; own_handle = 0; sent = [] })
            es
          ≡ record { registry = r.backend; own_handle = r.handle; sent = (ps ++ r.sent) ++ qs })
        × AllInput ps
        × AllInput qs
  unfolding perform perform_one
  constructor_calls b d id es before after order quiet quiet' =
      let r = attach_controller b id d in
      let start : Port = record { registry = b; own_handle = 0; sent = [] } in
      let (ps, first, inputs) = perform-SendsInput F d id start before quiet in
      let mid : Port = record {
        registry = r.backend;
        own_handle = r.handle;
        sent = ps ++ r.sent;
      } in
      let (qs, last, inputs') = perform-SendsInput F d id mid after quiet' in
      (
        ps,
        qs,
        ap (perform F d id start) order
            ∙ perform-append F d id start before (finalize_connection ∷ after)
            ∙ ap (λ q. perform F d id q (finalize_connection ∷ after)) first
            ∙ last,
        inputs,
        inputs',
      )

  -- A controller of one of the four classes.
  named_step :
      (ios : Bool) (id : ℕ) (garbage : Calibrations) (name : List ℕ) (s : System Float)
      → connect_class name ≢ dummy
      → lookup id s.connections ≡ none
      → s.backend.next_handle + 1 < 2 ^ 32
      → IsSystem F L s
      → Steps F L (device_attached F ios id garbage name s)
  unfolding device_attached attach_controller
  named_step ios id garbage name s named free room h =
      let class = connect_class name in
      let d = describe class in
      let b = s.backend in
      let a = attach_controller b id d in
      let (r, before, after, returns, good, order, quiet, quiet') =
        open_pad-Opens F L ios garbage class named in
      let (ps, qs, calls, inputs, inputs') =
        constructor_calls b d id r.effects before after order quiet quiet' in
      let (absent, others, sent, registry) = attach_adds_controller b id d h.linked.registry room in
      let nonzero : b.next_handle ≢ 0 = λ e. absurd (omega (arith, e, h.linked.positive)) in
      let new : Device Float = record {
        class = class;
        pad = r.state;
        handle = b.next_handle;
        data_bytes = blank_data;
      } in
      let c = connect b.next_handle (connect_packet d) ∷ [] in
      let linked =
        fresh-IsLinked F L b a.backend s.connections id new free good registry
          (attach-positive b id d room) (attach-unnamed b id d h.linked.positive h.linked.unnamed)
          (λ k i e. With-keeps F L b a.backend b.next_handle id k i absent others e)
          (inr (others b.next_handle ∙ rw ((==_iff b.next_handle b.next_handle).1 refl)))
          (λ k i e. With-origin F L b a.backend b.next_handle id k i others e) h.linked in
      let queued = more_inputs b s.to_frontend ps s.frontend inputs h.shown in
      let told =
        IsShown-With b a.backend (s.to_frontend ++ ps) s.frontend b.next_handle id
          (connect_packet d) nonzero absent others queued in
      let shown = more_inputs a.backend ((s.to_frontend ++ ps) ++ c) qs s.frontend inputs' told in
      let same : ((s.to_frontend ++ ps) ++ c) ++ qs ≡ s.to_frontend ++ ((ps ++ c) ++ qs) =
        ap (λ x. x ++ qs) (append_assoc s.to_frontend ps c)
        ∙ append_assoc s.to_frontend (ps ++ c) qs in
      (
        record s {
          backend = a.backend;
          connections = put id new s.connections;
          to_frontend = s.to_frontend ++ ((ps ++ c) ++ qs);
        },
        rw (returns, calls),
        record {
          linked = linked;
          shown = subst (λ w. IsShown a.backend w s.frontend) same shown;
          indices = h.indices;
        },
      )

  -- A device of no known kind: an object that nobody hears of.
  dummy_step :
      (ios : Bool) (id : ℕ) (garbage : Calibrations) (name : List ℕ) (s : System Float)
      → connect_class name ≡ dummy
      → lookup id s.connections ≡ none
      → IsSystem F L s
      → Steps F L (device_attached F ios id garbage name s)
  unfolding device_attached Interface.open_pad perform
  dummy_step ios id garbage name s unnamed free h =
      let new : Device Float = record {
        class = dummy;
        pad = other;
        handle = 0;
        data_bytes = blank_data;
      } in
      (
        record s { connections = put id new s.connections; to_frontend = s.to_frontend ++ [] },
        rw unnamed,
        record {
          linked =
              fresh-IsLinked F L s.backend s.backend s.connections id new free tt h.linked.registry
                h.linked.positive h.linked.unnamed (λ k i e. e) (inl refl) (λ k i e. inl e)
                h.linked;
          shown = more_inputs s.backend s.to_frontend [] s.frontend tt h.shown;
          indices = h.indices;
        },
      )

  is_dummy : (c : PadClass) → (c ≡ dummy) ⊎ (c ≢ dummy)
  is_dummy playstation3 = inr (λ e. ground (arith, e))
  is_dummy wii_u_pro = inr (λ e. ground (arith, e))
  is_dummy wii_mote = inr (λ e. ground (arith, e))
  is_dummy dual_shock4 = inr (λ e. ground (arith, e))
  is_dummy dummy = inl refl

  pub attached_step :
      (ios : Bool) (id : ℕ) (garbage : Calibrations) (name : List ℕ) (s : System Float)
      → lookup id s.connections ≡ none
      → s.backend.next_handle + 1 < 2 ^ 32
      → IsSystem F L s
      → Steps F L (device_attached F ios id garbage name s)
  attached_step ios id garbage name s free room h = elim (is_dummy (connect_class name)) [
    | inl unnamed ↦ dummy_step ios id garbage name s unnamed free h
    | inr named ↦ named_step ios id garbage name s named free room h
  ]

-- ===== src/System/Links.antt =====
-- The links between the registry, the objects and the frontend, under the changes that steps make.
use mathlib.Core.Path.{subst}
use mfi_wrapper.Prelude.{
  ℕ, ◌≡◌, refl, sym, ap, ◌∙◌, ◌⊎◌, inl, inr, List, [], ◌++◌, none, some, arith, ◌==◌, ==_iff,
  Bool-cases, unsome,
}
use mfi_wrapper.Protocol.{DataPacket}
use mfi_wrapper.Backend.Defs.{Backend, find}
use mfi_wrapper.Backend.Registry.{controller, IsRegistry}
use mfi_wrapper.HidPad.Float.{FloatOps, FloatLaws}
use mfi_wrapper.HidPad.Effect.{Outcome}
use mfi_wrapper.HidPad.Quiet.{AllQuiet}
use mfi_wrapper.HidPad.Interface.{Pad, describe}
use mfi_wrapper.HidPad.Interface.Laws.{IsPad}
use mfi_wrapper.Frontend.Manager.{Frontend}
use mfi_wrapper.System.{Device, System, Port, after_method}
use mfi_wrapper.System.Memory.{Table, lookup, put, lookup-put}
use mfi_wrapper.System.Queue.{
  follow_all-append, AllInput, follow_all-AllInput, AllSound-append, AllInput-AllSound,
}
use mfi_wrapper.System.Calls.{perform-SendsInput}
use mfi_wrapper.System.Invariant.{presence, IsShown, IsLinked, IsSystem}

-- More packets of connected controllers in the queue.
pub more_inputs :
    (b : Backend) (waiting ps : List DataPacket) (f : Frontend)
    → AllInput ps
    → IsShown b waiting f
    → IsShown b (waiting ++ ps) f
more_inputs b waiting ps f inputs h = record {
  listed = h.listed;
  array = h.array;
  at_end = h.at_end;
  replays =
      follow_all-append waiting ps _ h.at_end h.replays ∙ follow_all-AllInput ps h.at_end inputs;
  counts = h.counts;
  sound = AllSound-append waiting ps h.sound (AllInput-AllSound ps inputs);
}

-- Another registry in which every handle stands for what it stood for.
abbrev pub SameControllers : Backend → Backend → Type 0
SameControllers b b' = (k : ℕ) → controller b' k ≡ controller b k

pub same-IsShown :
    (b b' : Backend) (waiting : List DataPacket) (f : Frontend)
    → SameControllers b b'
    → IsShown b waiting f
    → IsShown b' waiting f
same-IsShown b b' waiting f same h = record {
  listed = h.listed;
  array = h.array;
  at_end = h.at_end;
  replays = h.replays;
  counts = λ k. h.counts k ∙ ap presence (sym (same k));
  sound = h.sound;
}

module _ (F : FloatOps) (L : FloatLaws F) where
  open F use {Float}

  pub same-IsLinked :
      (b b' : Backend) (t : Table (Device Float))
      → SameControllers b b'
      → IsRegistry b'
      → b'.next_handle ≡ b.next_handle
      → find 0 b'.devices ≡ none
      → IsLinked F L b t
      → IsLinked F L b' t
  same-IsLinked b b' t same registry next unnamed h = record {
    registry = registry;
    positive = omega (arith, h.positive, next);
    unnamed = unnamed;
    pads = h.pads;
    entered = λ id dev e. elim (h.entered id dev e) [
      | inl never ↦ inl never
      | inr there ↦ inr (same dev.handle ∙ there)
    ];
    pointed = λ k id e. h.pointed k id (sym (same k) ∙ e);
  }

  -- An object with new contents.
  new_contents :
      (t : Table (Device Float)) (id k : ℕ) (old new dev : Device Float)
      → lookup id t ≡ some old
      → new.handle ≡ old.handle
      → lookup k (put id new t) ≡ some dev
      → ((id ≡ k) × (dev ≡ new)) ⊎ (lookup k t ≡ some dev)
  new_contents t id k old new dev there same e =
      let now = sym (lookup-put id k new t) ∙ e in
      elim (Bool-cases (id == k)) [
        | inl here ↦ inl ((==_iff id k).0 here, sym (unsome (rw here at now)))
        | inr away ↦ inr (rw away at now)
      ]

  put-IsLinked :
      (b : Backend) (t : Table (Device Float)) (id : ℕ) (old new : Device Float)
      → lookup id t ≡ some old
      → new.handle ≡ old.handle
      → IsPad F L new.pad
      → IsLinked F L b t
      → IsLinked F L b (put id new t)
  put-IsLinked b t id old new there same good h = record {
    registry = h.registry;
    positive = h.positive;
    unnamed = h.unnamed;
    pads = λ k dev e. elim (new_contents t id k old new dev there same e) [
      | inl (here, is_new) ↦ subst (λ x. IsPad F L x.pad) (sym is_new) good
      | inr kept ↦ h.pads k dev kept
    ];
    entered = λ k dev e. elim (new_contents t id k old new dev there same e) [
      | inl (here, is_new) ↦
          let handle = ap (λ x. x.handle) is_new ∙ same in
          elim (h.entered id old there) [
            | inl never ↦ inl (handle ∙ never)
            | inr entry ↦ inr (ap (controller b) handle ∙ entry ∙ ap some here)
          ]
      | inr kept ↦ h.entered k dev kept
    ];
    pointed = λ k i e.
        let (dev, found, handle) = h.pointed k i e in
        elim (Bool-cases (id == i)) [
          | inl here ↦
              let same_id = (==_iff id i).0 here in
              let is_old = unsome (sym found ∙ ap (λ x. lookup x t) (sym same_id) ∙ there) in
              (
                new,
                lookup-put id i new t ∙ rw here,
                same ∙ ap (λ x. x.handle) (sym is_old) ∙ handle,
              )
          | inr away ↦ (dev, lookup-put id i new t ∙ rw away found, handle)
        ];
  }

  -- What a quiet method of a controller keeps.
  pub method_keeps :
      (id : ℕ) (dev : Device Float) (r : Outcome (Pad Float) Float) (d buffer : List ℕ)
      (s : System Float)
      → lookup id s.connections ≡ some dev
      → IsPad F L r.state
      → AllQuiet r.effects
      → IsSystem F L s
      → IsSystem F L (after_method F id dev r d buffer s)
  unfolding after_method
  method_keeps id dev r d buffer s there good quiet h =
      let start : Port = record { registry = s.backend; own_handle = dev.handle; sent = [] } in
      let (ps, port, inputs) = perform-SendsInput F (describe dev.class) id start r.effects quiet in
      let new : Device Float = record {
        class = dev.class;
        pad = r.state;
        handle = dev.handle;
        data_bytes = d;
      } in
      let kept : IsSystem F L (record s {
        connections = put id new s.connections;
        report_buffer = buffer;
        to_frontend = s.to_frontend ++ ps;
      }) =
        record {
          linked = put-IsLinked s.backend s.connections id dev new there refl good h.linked;
          shown = more_inputs s.backend s.to_frontend ps s.frontend inputs h.shown;
          indices = h.indices;
        } in
      subst
        (λ q. IsSystem F L (record s {
          backend = q.registry;
          connections =
              put id
                (record { class = dev.class; pad = r.state; handle = q.own_handle; data_bytes = d })
                s.connections;
          report_buffer = buffer;
          to_frontend = s.to_frontend ++ q.sent;
        }))
        (sym port) kept

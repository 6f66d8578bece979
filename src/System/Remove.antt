-- ===== src/System/Remove.antt =====
-- The step in which a device is removed: its object is deleted.
use mathlib.Core.Path.{subst}
use mfi_wrapper.Prelude.{
  ℕ, ◌+◌, ◌≡◌, ◌≢◌, sym, ap, ◌∙◌, inl, inr, false, List, [], ◌∷◌, ◌++◌, none, some, arith, ◌==◌,
  ==_iff, if◌then◌else◌, Bool-cases, unsome, none_not,
}
use mfi_wrapper.Protocol.{DataPacket, disconnect}
use mfi_wrapper.Backend.Defs.{Backend, find, detach_controller}
use mfi_wrapper.Backend.Registry.{controller, IsRegistry, find-erase}
use mfi_wrapper.Backend.Lifecycle.{detach_removes_controller}
use mfi_wrapper.HidPad.Float.{FloatOps, FloatLaws}
use mfi_wrapper.Frontend.Manager.{Frontend}
use mfi_wrapper.Frontend.Manager.Laws.{follow}
use mfi_wrapper.System.{Device, System, device_removed}
use mfi_wrapper.System.Memory.{Table, lookup, remove, lookup-remove}
use mfi_wrapper.System.Queue.{follow_all, follow_all-append, count, count-without, AllSound-append}
use mfi_wrapper.System.Invariant.{presence, IsShown, IsLinked, IsSystem}
use mfi_wrapper.System.Links.{more_inputs, same-IsShown}
use mfi_wrapper.System.Messages.{Steps}

-- No controller is under the handle 0.
unnamed-controller : (b : Backend) → find 0 b.devices ≡ none → controller b 0 ≡ none
unfolding controller
unnamed-controller b e = ground (arith, e)

-- Detaching a handle that is not in the registry.
detach_absent : (b : Backend) (h : ℕ) → find h b.devices ≡ none → (detach_controller b h).1 ≡ []
unfolding detach_controller
detach_absent b h e = ground (arith, e)

detach-unnamed :
    (b : Backend) (h : ℕ)
    → IsRegistry b
    → find 0 b.devices ≡ none
    → find 0 (detach_controller b h).0.devices ≡ none
unfolding detach_controller
detach-unnamed b h registry e = ground (arith, e, find-erase h 0 b.devices registry.distinct)

-- Every other handle stands for what it stood for.
abbrev pub Without : ℕ → Backend → Backend → Type 0
Without h b b' = (k : ℕ) → controller b' k ≡ (if h == k then none else controller b k)

IsShown-Without :
    (b b' : Backend) (waiting : List DataPacket) (f : Frontend) (h id : ℕ)
    → h ≢ 0
    → controller b h ≡ some id
    → Without h b b'
    → IsShown b waiting f
    → IsShown b' (waiting ++ disconnect h ∷ []) f
unfolding follow_all follow
IsShown-Without b b' waiting f h id nonzero live others shown =
    let one : count h shown.at_end ≡ 1 = shown.counts h ∙ ap presence live in
    let (at_end', found, counts) =
      count-without h shown.at_end (λ zero_there. absurd (omega (arith, one, zero_there))) in
    record {
      listed = shown.listed;
      array = shown.array;
      at_end = at_end';
      replays =
          follow_all-append waiting (disconnect h ∷ []) _ shown.at_end shown.replays
          ∙ ground (arith, nonzero, found);
      counts = λ k. elim (Bool-cases (h == k)) [
        | inl here ↦
            let gone : controller b' k ≡ none = others k ∙ rw here in
            let only : count k shown.at_end ≡ 1 =
              ap (λ x. count x shown.at_end) (sym ((==_iff h k).0 here)) ∙ one in
            let split : count k shown.at_end ≡ count k at_end' + 1 = rw here at (counts k) in
            let left : count k at_end' ≡ 0 = omega (arith, only, split) in
            left ∙ ap presence (sym gone)
        | inr away ↦
            let kept : controller b' k ≡ controller b k = others k ∙ rw away in
            let split : count k shown.at_end ≡ count k at_end' + 0 = rw away at (counts k) in
            let left : count k at_end' ≡ count k shown.at_end = omega (arith, split) in
            left ∙ shown.counts k ∙ ap presence (sym kept)
      ];
      sound = AllSound-append waiting (disconnect h ∷ []) shown.sound (tt, tt);
    }

absent_same :
    (b b' : Backend) (h : ℕ)
    → controller b h ≡ none
    → Without h b b'
    → (k : ℕ) → controller b' k ≡ controller b k
absent_same b b' h absent others k = elim (Bool-cases (h == k)) [
  | inl here ↦ others k ∙ rw here (sym (ap (controller b) (sym ((==_iff h k).0 here)) ∙ absent))
  | inr away ↦ others k ∙ rw away
]

module _ (F : FloatOps) (L : FloatLaws F) where
  open F use {Float}

  -- The object under a handle is the one that has it.
  sole :
      (b : Backend) (t : Table (Device Float)) (id k : ℕ) (dev : Device Float)
      → IsLinked F L b t
      → lookup id t ≡ some dev
      → controller b dev.handle ≡ some k
      → id ≡ k
  sole b t id k dev h there registered = elim (h.entered id dev there) [
    | inl never ↦
        absurd
          (none_not (sym (ap (controller b) never ∙ unnamed-controller b h.unnamed) ∙ registered))
    | inr own ↦ unsome (sym own ∙ registered)
  ]

  remains :
      (t : Table (Device Float)) (id k : ℕ) (dev : Device Float)
      → lookup k (remove id t) ≡ some dev
      → ((id == k) ≡ false) × (lookup k t ≡ some dev)
  remains t id k dev e =
      let now = sym (lookup-remove id k t) ∙ e in
      elim (Bool-cases (id == k)) [
        | inl here ↦ absurd (none_not (rw here at now))
        | inr away ↦ (away, rw away at now)
      ]

  -- A handle that stands for a controller in the new registry.
  still :
      (b b' : Backend) (h k i : ℕ)
      → Without h b b'
      → controller b' k ≡ some i
      → ((h == k) ≡ false) × (controller b k ≡ some i)
  still b b' h k i others e =
      let now = sym (others k) ∙ e in
      elim (Bool-cases (h == k)) [
        | inl here ↦ absurd (none_not (rw here at now))
        | inr away ↦ (away, rw away at now)
      ]

  remove-IsLinked :
      (b b' : Backend) (t : Table (Device Float)) (id : ℕ) (dev : Device Float)
      → lookup id t ≡ some dev
      → Without dev.handle b b'
      → IsRegistry b'
      → b'.next_handle ≡ b.next_handle
      → find 0 b'.devices ≡ none
      → IsLinked F L b t
      → IsLinked F L b' (remove id t)
  remove-IsLinked b b' t id dev there others registry next unnamed h = record {
    registry = registry;
    positive = omega (arith, h.positive, next);
    unnamed = unnamed;
    pads = λ k d e. h.pads k d (remains t id k d e).1;
    entered = λ k d e.
        let (away, kept) = remains t id k d e in
        elim (h.entered k d kept) [
          | inl never ↦ inl never
          | inr own ↦ elim (Bool-cases (dev.handle == d.handle)) [
            | inl same ↦
                let mine = ap (controller b) ((==_iff dev.handle d.handle).0 same) ∙ own in
                absurd (grind (arith, away, sole b t id k dev h there mine))
            | inr differs ↦ inr (others d.handle ∙ rw differs own)
          ]
        ];
    pointed = λ k i e.
        let (differs, kept) = still b b' dev.handle k i others e in
        let (d, found, handle) = h.pointed k i kept in
        elim (Bool-cases (id == i)) [
          | inl here ↦
              let is_dev =
                unsome (sym there ∙ ap (λ x. lookup x t) ((==_iff id i).0 here) ∙ found) in
              let same = ap (λ x. x.handle) is_dev ∙ handle in absurd (grind (arith, differs, same))
          | inr away ↦ (d, lookup-remove id i t ∙ rw away found, handle)
        ];
  }

  pub removed_step :
      (id : ℕ) (s : System Float) (dev : Device Float)
      → lookup id s.connections ≡ some dev
      → IsSystem F L s
      → Steps F L (device_removed F id s)
  unfolding device_removed
  removed_step id s dev there h =
      let b = s.backend in
      let b' = (detach_controller b dev.handle).0 in
      let (others, next, registry, tells) =
        detach_removes_controller b dev.handle h.linked.registry in
      let linked =
        remove-IsLinked b b' s.connections id dev there others registry next
          (detach-unnamed b dev.handle h.linked.registry h.linked.unnamed) h.linked in
      (
        record s {
          backend = b';
          connections = remove id s.connections;
          to_frontend = s.to_frontend ++ (detach_controller b dev.handle).1;
        },
        rw there,
        record {
          linked = linked;
          shown = elim (h.linked.entered id dev there) [
            | inl never ↦
                let nowhere = ap (λ x. find x b.devices) never ∙ h.linked.unnamed in
                let absent = ap (controller b) never ∙ unnamed-controller b h.linked.unnamed in
                subst (λ ps. IsShown b' (s.to_frontend ++ ps) s.frontend)
                  (sym (detach_absent b dev.handle nowhere))
                  (more_inputs b' s.to_frontend [] s.frontend tt (
                    same-IsShown b b' s.to_frontend s.frontend
                      (absent_same b b' dev.handle absent others) h.shown))
            | inr own ↦
                let named : dev.handle ≢ 0 = λ unnamed.
                  none_not (
                    sym (ap (controller b) unnamed ∙ unnamed-controller b h.linked.unnamed)
                    ∙ own) in
                subst (λ ps. IsShown b' (s.to_frontend ++ ps) s.frontend)
                  (sym (tells (λ missing. none_not (sym missing ∙ own))))
                  (IsShown-Without b b' s.to_frontend s.frontend dev.handle id named own others
                    h.shown)
          ];
          indices = h.indices;
        },
      )

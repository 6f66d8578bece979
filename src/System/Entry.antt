-- ===== src/System/Entry.antt =====
-- A new object and its entry in the registry.
use mathlib.Core.Path.{subst}
use mfi_wrapper.Prelude.{
  ℕ, ◌+◌, ◌^◌, ◌<◌, ◌≡◌, ◌≢◌, sym, ap, ◌∙◌, ◌⊎◌, inl, inr, List, [], ◌∷◌, ◌++◌, none, some, arith,
  ◌==◌, ==_iff, if◌then◌else◌, Bool-cases, unsome, none_not,
}
use mfi_wrapper.Protocol.{ConnectPacket, DataPacket, connect}
use mfi_wrapper.Backend.Defs.{Backend, Description, find, attach_controller}
use mfi_wrapper.Backend.Registry.{controller, IsRegistry, find-assign}
use mfi_wrapper.HidPad.Float.{FloatOps, FloatLaws}
use mfi_wrapper.HidPad.Interface.Laws.{IsPad}
use mfi_wrapper.Frontend.Manager.{Frontend}
use mfi_wrapper.Frontend.Manager.Laws.{follow}
use mfi_wrapper.System.{Device}
use mfi_wrapper.System.Memory.{Table, lookup, put, lookup-put}
use mfi_wrapper.System.Queue.{follow_all, follow_all-append, count, count-append, AllSound-append}
use mfi_wrapper.System.Invariant.{presence, IsShown, IsLinked}

pub attach-unnamed :
    (b : Backend) (id : ℕ) (d : Description)
    → 0 < b.next_handle
    → find 0 b.devices ≡ none
    → find 0 (attach_controller b id d).backend.devices ≡ none
unfolding attach_controller
attach-unnamed b id d positive e =
    ground (arith, positive, e, find-assign b.next_handle 0 (some id) b.devices)

pub attach-positive :
    (b : Backend) (id : ℕ) (d : Description)
    → b.next_handle + 1 < 2 ^ 32
    → 0 < (attach_controller b id d).backend.next_handle
unfolding attach_controller
attach-positive b id d room = omega (arith, room)

-- Another handle stands for a controller.
abbrev pub With : ℕ → ℕ → Backend → Backend → Type 0
With h id b b' = (k : ℕ) → controller b' k ≡ (if h == k then some id else controller b k)

pub IsShown-With :
    (b b' : Backend) (waiting : List DataPacket) (f : Frontend) (h id : ℕ) (p : ConnectPacket)
    → h ≢ 0
    → controller b h ≡ none
    → With h id b b'
    → IsShown b waiting f
    → IsShown b' (waiting ++ connect h p ∷ []) f
unfolding follow_all follow
IsShown-With b b' waiting f h id p nonzero absent others shown = record {
  listed = shown.listed;
  array = shown.array;
  at_end = shown.at_end ++ h ∷ [];
  replays = follow_all-append waiting (connect h p ∷ []) _ shown.at_end shown.replays;
  counts = λ k. elim (Bool-cases (h == k)) [
    | inl here ↦
        let now : controller b' k ≡ some id = others k ∙ rw here in
        let before : count k shown.at_end ≡ 0 =
          shown.counts k ∙ ap presence (ap (controller b) (sym ((==_iff h k).0 here)) ∙ absent) in
        let more : count k (shown.at_end ++ h ∷ []) ≡ count k shown.at_end + 1 =
          count-append k shown.at_end h ∙ rw here in
        let total : count k (shown.at_end ++ h ∷ []) ≡ 1 = omega (arith, before, more) in
        total ∙ ap presence (sym now)
    | inr away ↦
        let kept : controller b' k ≡ controller b k = others k ∙ rw away in
        let more : count k (shown.at_end ++ h ∷ []) ≡ count k shown.at_end + 0 =
          count-append k shown.at_end h ∙ rw away in
        let total : count k (shown.at_end ++ h ∷ []) ≡ count k shown.at_end = omega (arith, more) in
        total ∙ shown.counts k ∙ ap presence (sym kept)
  ];
  sound = AllSound-append waiting (connect h p ∷ []) shown.sound (nonzero, tt);
}

module _ (F : FloatOps) (L : FloatLaws F) where
  open F use {Float}

  -- A new object, which has its handle in the registry or has none.
  pub fresh-IsLinked :
      (b b' : Backend) (t : Table (Device Float)) (id : ℕ) (new : Device Float)
      → lookup id t ≡ none
      → IsPad F L new.pad
      → IsRegistry b'
      → 0 < b'.next_handle
      → find 0 b'.devices ≡ none
      → ((k i : ℕ) → controller b k ≡ some i → controller b' k ≡ some i)
      → (new.handle ≡ 0) ⊎ (controller b' new.handle ≡ some id)
      → ((k i : ℕ)
          → controller b' k ≡ some i
          → (controller b k ≡ some i) ⊎ ((id ≡ i) × (new.handle ≡ k)))
      → IsLinked F L b t
      → IsLinked F L b' (put id new t)
  fresh-IsLinked b b' t id new free good registry positive unnamed kept own origin h = record {
    registry = registry;
    positive = positive;
    unnamed = unnamed;
    pads = λ k dev e. elim (Bool-cases (id == k)) [
      | inl here ↦
          subst (λ x. IsPad F L x.pad) (unsome (rw here at (sym (lookup-put id k new t) ∙ e))) good
      | inr away ↦ h.pads k dev (rw away at (sym (lookup-put id k new t) ∙ e))
    ];
    entered = λ k dev e. elim (Bool-cases (id == k)) [
      | inl here ↦
          let is_new = unsome (rw here at (sym (lookup-put id k new t) ∙ e)) in
          let same = ap (λ x. x.handle) is_new in
          elim own [
            | inl never ↦ inl (sym same ∙ never)
            | inr entry ↦
                inr (ap (controller b') (sym same) ∙ entry ∙ ap some ((==_iff id k).0 here))
          ]
      | inr away ↦ elim (h.entered k dev (rw away at (sym (lookup-put id k new t) ∙ e))) [
        | inl never ↦ inl never
        | inr entry ↦ inr (kept dev.handle k entry)
      ]
    ];
    pointed = λ k i e. elim (origin k i e) [
      | inl old ↦
          let (dev, found, handle) = h.pointed k i old in
          elim (Bool-cases (id == i)) [
            | inl here ↦
                absurd (none_not (sym free ∙ ap (λ x. lookup x t) ((==_iff id i).0 here) ∙ found))
            | inr away ↦ (dev, lookup-put id i new t ∙ rw away found, handle)
          ]
      | inr (same_id, handle) ↦ (new, lookup-put id i new t ∙ rw ((==_iff id i).1 same_id), handle)
    ];
  }

  pub With-origin :
      (b b' : Backend) (h id k i : ℕ)
      → With h id b b'
      → controller b' k ≡ some i
      → (controller b k ≡ some i) ⊎ ((id ≡ i) × (h ≡ k))
  With-origin b b' h id k i others e =
      let now = sym (others k) ∙ e in
      elim (Bool-cases (h == k)) [
        | inl here ↦ inr (unsome (rw here at now), (==_iff h k).0 here)
        | inr away ↦ inl (rw away at now)
      ]

  pub With-keeps :
      (b b' : Backend) (h id k i : ℕ)
      → controller b h ≡ none
      → With h id b b'
      → controller b k ≡ some i
      → controller b' k ≡ some i
  With-keeps b b' h id k i absent others e = elim (Bool-cases (h == k)) [
    | inl here ↦ absurd (none_not (sym absent ∙ ap (controller b) ((==_iff h k).0 here) ∙ e))
    | inr away ↦ others k ∙ rw away e
  ]

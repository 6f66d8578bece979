-- ===== src/System/Arrays.antt =====
-- The controllers in the array of the frontend, over the steps of the whole program.
use mathlib.Core.Path.{subst}
use mfi_wrapper.Prelude.{
  ℕ, ◌≡◌, refl, sym, ap, ◌∙◌, inl, inr, Bool, List, [], Option, none, some, Option-cases,
  List-cases, unsome, none_not,
}
use mfi_wrapper.Backend.Defs as Backend
use mfi_wrapper.HidPad.Float.{FloatOps}
use mfi_wrapper.HidPad.WiiUPro.{Calibrations}
use mfi_wrapper.HidPad.Interface as Interface
use mfi_wrapper.HidPad.Interface.{connect_class, describe}
use mfi_wrapper.Frontend.Controller.{Controller}
use mfi_wrapper.Frontend.Manager as Manager
use mfi_wrapper.Frontend.Manager.{Frontend, find_controller_by_handle, at, set_player_index_of}
use mfi_wrapper.Frontend.Manager.Laws.{with_array}
use mfi_wrapper.Frontend.Manager.Arrays.{AllControllers, dispatch-Leaves, indexed-AllControllers}
use mfi_wrapper.HidManager.{stored, packet_size}
use mfi_wrapper.System.{
  System, device_attached, device_report, device_removed, tell, after_method, backend_receives,
  frontend_receives, deliver_to_frontend, deliver_to_backend, application_sets_index, boot,
}
use mfi_wrapper.System.Memory.{lookup}
use mfi_wrapper.System.Safety.{
  attached, reported, removed, frontend_turn, backend_turn, index_set, Event, handled, step-handled,
  Reachable, start, next,
}

-- The frontend's array holds controllers.
abbrev pub IsArray : Frontend → Type 0
IsArray f = (cs : List Controller) × (f ≡ with_array f cs) × AllControllers cs

module _ (F : FloatOps) where
  open F use {Float}

  attached-frontend :
      (ios : Bool) (id : ℕ) (garbage : Calibrations) (name : List ℕ) (s s' : System Float)
      → device_attached F ios id garbage name s ≡ some s'
      → s'.frontend ≡ s.frontend
  unfolding device_attached
  attached-frontend ios id garbage name s s' e =
      elim (Option-cases (Interface.open_pad F ios garbage (connect_class name))) [
        | inl missing ↦ absurd (none_not (rw (device_attached, missing) at e))
        | inr (r, opens) ↦ ap (λ x. x.frontend) (sym (unsome (rw (device_attached, opens) at e)))
      ]

  report-frontend :
      (id : ℕ) (report : List ℕ) (s s' : System Float)
      → device_report F id report s ≡ some s'
      → s'.frontend ≡ s.frontend
  unfolding device_report after_method
  report-frontend id report s s' e = elim (Option-cases (lookup id s.connections)) [
    | inl gone ↦ absurd (none_not (rw gone at e))
    | inr (dev, there) ↦
        let turn = rw there at e in
        elim (Option-cases (
          Interface.handle_packet F s.report_buffer dev.pad (stored dev.data_bytes report)
            (packet_size report))) [
              | inl missing ↦ absurd (none_not (rw missing at turn))
              | inr (r, returns) ↦ ap (λ x. x.frontend) (sym (unsome (rw returns at turn)))
            ]
  ]

  removed-frontend :
      (id : ℕ) (s s' : System Float) → device_removed F id s ≡ some s' → s'.frontend ≡ s.frontend
  unfolding device_removed
  removed-frontend id s s' e = elim (Option-cases (lookup id s.connections)) [
    | inl gone ↦ absurd (none_not (rw gone at e))
    | inr (dev, there) ↦ ap (λ x. x.frontend) (sym (unsome (rw there at e)))
  ]

  tell-frontend :
      (target : Option (ℕ × ℕ)) (s s' : System Float)
      → tell F target s ≡ some s'
      → s'.frontend ≡ s.frontend
  unfolding tell after_method
  tell-frontend none s s' e = ap (λ x. x.frontend) (sym (unsome e))
  tell-frontend (some (id, n)) s s' e = elim (Option-cases (lookup id s.connections)) [
    | inl gone ↦ absurd (none_not (rw gone at e))
    | inr (dev, there) ↦ ap (λ x. x.frontend) (sym (unsome (rw there at e)))
  ]

  backend-frontend :
      (s s' : System Float) → deliver_to_backend F s ≡ some s' → s'.frontend ≡ s.frontend
  unfolding deliver_to_backend backend_receives
  backend-frontend s s' e = elim (List-cases s.to_backend) [
    | inl empty ↦
        let turn : deliver_to_backend F s ≡ some s = simp (deliver_to_backend, empty) in
        ap (λ x. x.frontend) (sym (unsome (sym turn ∙ e)))
    | inr (p, rest, waits) ↦
        let turn : deliver_to_backend F s ≡ backend_receives F p rest s =
          simp (deliver_to_backend, waits) in
        tell-frontend (Backend.dispatch s.backend (some p)).1
          (record s { backend = (Backend.dispatch s.backend (some p)).0; to_backend = rest }) s'
          (sym turn ∙ e)
  ]

  frontend-IsArray :
      (s s' : System Float)
      → deliver_to_frontend F s ≡ some s'
      → IsArray s.frontend
      → IsArray s'.frontend
  unfolding deliver_to_frontend frontend_receives
  frontend-IsArray s s' e (cs, array, h) = elim (List-cases s.to_frontend) [
    | inl empty ↦
        let turn : deliver_to_frontend F s ≡ some s = simp (deliver_to_frontend, empty) in
        subst (λ x. IsArray x.frontend) (unsome (sym turn ∙ e)) (cs, array, h)
    | inr (p, rest, waits) ↦
        let turn : deliver_to_frontend F s ≡ frontend_receives F p rest s =
          simp (deliver_to_frontend, waits) in
        let done = sym turn ∙ e in
        elim (Option-cases (Manager.dispatch s.frontend (some p))) [
          | inl raised ↦ absurd (none_not (rw (frontend_receives, raised) at done))
          | inr (r, returns) ↦
              let (cs', left, good) =
                dispatch-Leaves s.frontend cs p r
                  (ap (λ f. Manager.dispatch f (some p)) (sym array) ∙ returns) h in
              let same = ap (λ x. x.frontend) (unsome (rw (frontend_receives, returns) at done)) in
              subst IsArray same (cs', left ∙ ap (λ f. with_array f cs') (sym left), good)
        ]
  ]

  module _ (ios : Bool) (room : ℕ) where
    handled-IsArray :
        (e : Event) (s s' : System Float)
        → handled F ios room e s ≡ some s'
        → IsArray s.frontend
        → IsArray s'.frontend
    unfolding application_sets_index set_player_index_of
    handled-IsArray (attached id garbage name) s s' e h =
        subst IsArray (sym (attached-frontend ios id garbage name s s' e)) h
    handled-IsArray (reported id report) s s' e h =
        subst IsArray (sym (report-frontend id report s s' e)) h
    handled-IsArray (removed id) s s' e h = subst IsArray (sym (removed-frontend id s s' e)) h
    handled-IsArray frontend_turn s s' e h = frontend-IsArray s s' e h
    handled-IsArray backend_turn s s' e h = subst IsArray (sym (backend-frontend s s' e)) h
    handled-IsArray (index_set handle i) s s' e (cs, array, h) =
        subst (λ x. IsArray x.frontend) (unsome e)
          (
            Manager.indexed handle i cs,
            ap (λ f. set_player_index_of f handle i) array,
            indexed-AllControllers handle i cs h,
          )

    pub Reachable-IsArray : (s : System Float) → Reachable F ios room s → IsArray s.frontend
    unfolding boot Manager.startup
    Reachable-IsArray _ (start buffer) = ([], refl, tt)
    Reachable-IsArray _ (next e s s' before _ steps) =
        handled-IsArray e s s' (step-handled F ios room e s s' steps).0 (Reachable-IsArray s before)

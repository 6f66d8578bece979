-- ===== src/Frontend/Hooks/Exchange.antt =====
-- The load method of src/frontend/GCController_Hook_OSX.mm, which exchanges class methods of GCController
-- with those of GCControllerHook.
use mathlib.Core.Path.{fun_ext}
use mfi_wrapper.Prelude.{
  ℕ, ◌==◌, ◌≡◌, Bool, true, false, Option, none, some, ◌&&◌, if◌then◌else◌, arith, ap, ◌∙◌,
  Bool-cases, inl, inr,
}

-- The selectors of the file, and all others.
pub data Selector : Type 0 where
  start_discovery stop_discovery get_controllers : Selector
  other : ℕ → Selector

pub data Class : Type 0 where
  gc_controller gc_controller_hook : Class

-- The implementations of the class methods. A class that is not there has none, and neither has a class
-- without the method.
pub record Runtime (Imp : Type 0) : Type 0 where
  pub has_gc_controller : Bool
  pub method : Class → Selector → Option Imp

abbrev pub same_selector : Selector → Selector → Bool
same_selector start_discovery start_discovery = true
same_selector stop_discovery stop_discovery = true
same_selector get_controllers get_controllers = true
same_selector (other m) (other n) = m == n
same_selector s t = false

-- The selectors that load exchanges.
abbrev pub is_hooked : Selector → Bool
is_hooked start_discovery = true
is_hooked stop_discovery = true
is_hooked get_controllers = true
is_hooked (other n) = false

abbrev pub opposite : Class → Class
opposite gc_controller = gc_controller_hook
opposite gc_controller_hook = gc_controller

module _ {Imp : Type 0} where
  -- method_exchangeImplementations does nothing if a method is NULL.
  abbrev pub exchanged :
      (Class → Selector → Option Imp)
      → Selector
      → Option Imp
      → Option Imp
      → Class
      → Selector
      → Option Imp
  exchanged method s none hook c t = method c t
  exchanged method s (some orig) none c t = method c t
  exchanged method s (some orig) (some hook) gc_controller t =
      if same_selector s t then some hook else method gc_controller t
  exchanged method s (some orig) (some hook) gc_controller_hook t =
      if same_selector s t then some orig else method gc_controller_hook t

  -- EXCH
  unfoldable pub exch : Selector → Runtime Imp → Runtime Imp
  exch s r = record r {
    method = exchanged r.method s (r.method gc_controller s) (r.method gc_controller_hook s);
  }

  -- load
  unfoldable pub load : Runtime Imp → Runtime Imp
  load r =
      if r.has_gc_controller
      then exch get_controllers (exch stop_discovery (exch start_discovery r))
      else r

  -- Both classes have the method.
  abbrev pub both : Option Imp → Option Imp → Bool
  both (some a) (some b) = true
  both (some a) none = false
  both none (some b) = false
  both none none = false

  abbrev pub in_both : Runtime Imp → Selector → Bool
  in_both r s = both (r.method gc_controller s) (r.method gc_controller_hook s)

  exch_lem :
      (s : Selector) (r : Runtime Imp) (c : Class) (t : Selector)
      → (exch s r).method c t
        ≡ (if same_selector s t && in_both r s then r.method (opposite c) s else r.method c t)
  unfolding exch
  exch_lem s r gc_controller t = ground arith
  exch_lem s r gc_controller_hook t = ground arith

  -- The choice for one selector, over the methods of both classes.
  abbrev chosen : Class → (Class → Option Imp) → Option Imp
  chosen c method =
      if both (method gc_controller) (method gc_controller_hook)
      then method (opposite c)
      else method c

  all_exchanged :
      (r : Runtime Imp) (c : Class) (t : Selector)
      → (exch get_controllers (exch stop_discovery (exch start_discovery r))).method c t
        ≡ (if is_hooked t && in_both r t then r.method (opposite c) t else r.method c t)
  all_exchanged r c start_discovery =
      let q = exch start_discovery r in
      exch_lem get_controllers (exch stop_discovery q) c start_discovery
      ∙ exch_lem stop_discovery q c start_discovery
      ∙ exch_lem start_discovery r c start_discovery
  all_exchanged r c stop_discovery =
      let q = exch start_discovery r in
      exch_lem get_controllers (exch stop_discovery q) c stop_discovery
      ∙ exch_lem stop_discovery q c stop_discovery
      ∙ ap (chosen c) (fun_ext λ d. exch_lem start_discovery r d stop_discovery)
  all_exchanged r c get_controllers =
      let q = exch start_discovery r in
      exch_lem get_controllers (exch stop_discovery q) c get_controllers
      ∙ ap (chosen c) (
          fun_ext λ d.
            exch_lem stop_discovery q d get_controllers
            ∙ exch_lem start_discovery r d get_controllers)
  all_exchanged r c (other n) =
      let q = exch start_discovery r in
      exch_lem get_controllers (exch stop_discovery q) c (other n)
      ∙ exch_lem stop_discovery q c (other n)
      ∙ exch_lem start_discovery r c (other n)

  -- After load, a class method of GCController or of its hook class is the other class's method of
  -- that name, if GCController is there, the name is one of the three that the file exchanges, and
  -- both classes have it; and it is the same as before in every other case.
  pub load_exchanges :
      (r : Runtime Imp) (c : Class) (t : Selector)
      → (load r).method c t ≡ (
          if r.has_gc_controller && is_hooked t && in_both r t
          then r.method (opposite c) t
          else r.method c t)
  unfolding load
  load_exchanges r c t = elim (Bool-cases r.has_gc_controller) [
    | inl there ↦ simp (load, there, all_exchanged r c t)
    | inr missing ↦ simp (load, missing)
  ]

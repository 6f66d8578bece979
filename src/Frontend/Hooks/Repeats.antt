-- ===== src/Frontend/Hooks/Repeats.antt =====
-- Key events that iOS delivers more than once to the hook of src/frontend/GCController_Hook_iOS.xm.
use mathlib.Core.Path.{subst}
use mfi_wrapper.Prelude.{
  ℕ, ◌^◌, suc, zero, ◌≡◌, refl, Bool, true, false, List, [], ◌∷◌, ◌++◌, ◌∙◌, ap, Bool-cases, inl,
  inr, sym, replicate,
}
use mfi_wrapper.Prelude.Int.{wrap}
use mfi_wrapper.Frontend.Keyboard.{event}
use mfi_wrapper.Frontend.Hooks.{UiEvent, Keys, type_key, key_command_for_event, key_commands}

-- Each event, and how often it comes again.
abbrev pub Delivery : Type 0 → Type 0
Delivery Stamp = List (UiEvent Stamp × ℕ)

module _ {Stamp : Type 0} where
  unfoldable pub delivered : Delivery Stamp → List (UiEvent Stamp)
  delivered [] = []
  delivered ((e, n) ∷ rest) = e ∷ (replicate n e ++ delivered rest)

  -- What one event is to do: with a `_hidEvent`, the keyboard takes its key, and what it does is done;
  -- without one, only the time stamp is kept.
  abbrev pub typed_once : UiEvent Stamp → Keys Stamp → Keys Stamp
  typed_once e k = elim e.has_hid_event [
    | false ↦ record {
      last_time_stamp = e.timestamp;
      keyboard = k.keyboard;
      frontend = k.frontend;
      calls = k.calls;
      sent = k.sent;
    }
    | true ↦
        let r = event k.keyboard k.frontend e.is_key_down (wrap (2 ^ 32) e.key_code) in
        record {
          last_time_stamp = e.timestamp;
          keyboard = r.keyboard;
          frontend = r.frontend;
          calls = k.calls ++ r.calls;
          sent = k.sent ++ r.sent;
        }
  ]

  type_key-once :
      (e : UiEvent Stamp) (k : Keys Stamp)
      → type_key e (record k { last_time_stamp = e.timestamp }) ≡ typed_once e k
  unfolding type_key
  type_key-once e k = elim (Bool-cases e.has_hid_event) [ inl h ↦ rw h | inr h ↦ rw h ]

  -- Every event is typed once, one after the other.
  unfoldable pub type_all : Keys Stamp → Delivery Stamp → Keys Stamp
  type_all k [] = k
  type_all k ((e, n) ∷ rest) = type_all (typed_once e k) rest

  module _ (differs : Stamp → Stamp → Bool) where
    -- Each time stamp differs from the one before.
    abbrev pub AllDiffer : Stamp → Delivery Stamp → Type 0
    AllDiffer last [] = Unit
    AllDiffer last ((e, n) ∷ rest) = (differs last e.timestamp ≡ true) × AllDiffer e.timestamp rest

    type-stamp :
        (e : UiEvent Stamp) (k : Keys Stamp) → (type_key e k).last_time_stamp ≡ k.last_time_stamp
    unfolding type_key
    type-stamp e k = elim (Bool-cases e.has_hid_event) [ inl h ↦ rw h | inr h ↦ rw h ]

    first :
        (e : UiEvent Stamp) (k : Keys Stamp)
        → differs k.last_time_stamp e.timestamp ≡ true
        → key_command_for_event differs k e
          ≡ type_key e (record k { last_time_stamp = e.timestamp })
    unfolding key_command_for_event
    first e k new = rw new

    repeated :
        (e : UiEvent Stamp) (k : Keys Stamp)
        → differs e.timestamp e.timestamp ≡ false
        → k.last_time_stamp ≡ e.timestamp
        → key_command_for_event differs k e ≡ k
    unfolding key_command_for_event
    repeated e k same at = simp (key_command_for_event, at, same)

    again :
        (n : ℕ) (e : UiEvent Stamp) (k : Keys Stamp) (es : List (UiEvent Stamp))
        → differs e.timestamp e.timestamp ≡ false
        → k.last_time_stamp ≡ e.timestamp
        → key_commands differs k (replicate n e ++ es) ≡ key_commands differs k es
    unfolding key_commands
    again zero e k es same at = refl
    again (suc n) e k es same at =
        ap (λ j. key_commands differs j (replicate n e ++ es)) (repeated e k same at)
        ∙ again n e k es same at

    -- If no time stamp differs from itself: a history of key events, each delivered once or more in
    -- a row, the first with a time stamp other than the hook's last one, and each further event with
    -- one other than that of the event before it, leaves and sends through the hook what it is to do
    -- once each: an event with a `_hidEvent` goes to the keyboard with its code cut to 32 bits, and
    -- one without does nothing but leave its time stamp.
    pub repeats_are_ignored :
        ((t : Stamp) → differs t t ≡ false)
        → (k : Keys Stamp) (ds : Delivery Stamp) → AllDiffer k.last_time_stamp ds
        → key_commands differs k (delivered ds) ≡ type_all k ds
    unfolding key_commands delivered type_all
    repeats_are_ignored same k [] h = refl
    repeats_are_ignored same k ((e, n) ∷ rest) (new, later) =
        let t = typed_once e k in
        let typed = first e k new ∙ type_key-once e k in
        let at : t.last_time_stamp ≡ e.timestamp =
          ap (λ j. j.last_time_stamp) (sym (type_key-once e k))
          ∙ type-stamp e (record k { last_time_stamp = e.timestamp }) in
        ap (λ j. key_commands differs j (replicate n e ++ delivered rest)) typed
        ∙ again n e t (delivered rest) (same e.timestamp) at
        ∙ repeats_are_ignored same t rest (subst (λ s. AllDiffer s rest) (sym at) later)

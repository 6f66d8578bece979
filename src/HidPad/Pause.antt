-- ===== src/HidPad/Pause.antt =====
-- Pause presses over a history of packets, for every kind of controller.
use mfi_wrapper.Prelude.{
  ℕ, ◌+◌, ◌≡◌, refl, ap, ap₂, ◌∙◌, Bool, not, ◌&&◌, List, [], ◌∷◌, ◌++◌, map, arith, if◌then◌else◌,
  Option, none, some,
}
use mfi_wrapper.Protocol.{InputState}
use mfi_wrapper.HidPad.Effect.{
  Effect, set_report, get_report, finalize_connection, send_pause_pressed, send_controller_state,
  sleep, Outcome, pauses, reports, states, presses, pause_effects, run,
}

pub pauses-append :
    {Float : Type 0} (xs ys : List (Effect Float)) → pauses (xs ++ ys) ≡ pauses xs + pauses ys
pauses-append [] ys = omega arith
pauses-append (set_report b i d ∷ xs) ys = pauses-append xs ys
pauses-append (get_report b i n ∷ xs) ys = pauses-append xs ys
pauses-append (finalize_connection ∷ xs) ys = pauses-append xs ys
pauses-append (send_pause_pressed ∷ xs) ys = omega (arith, pauses-append xs ys)
pauses-append (send_controller_state i ∷ xs) ys = pauses-append xs ys
pauses-append (sleep n ∷ xs) ys = pauses-append xs ys

pub reports-append :
    {Float : Type 0} (xs ys : List (Effect Float)) → reports (xs ++ ys) ≡ reports xs ++ reports ys
reports-append [] ys = refl
reports-append (set_report b i d ∷ xs) ys = ap (◌∷◌ d) (reports-append xs ys)
reports-append (get_report b i n ∷ xs) ys = reports-append xs ys
reports-append (finalize_connection ∷ xs) ys = reports-append xs ys
reports-append (send_pause_pressed ∷ xs) ys = reports-append xs ys
reports-append (send_controller_state i ∷ xs) ys = reports-append xs ys
reports-append (sleep n ∷ xs) ys = reports-append xs ys

pub states-append :
    {Float : Type 0} (xs ys : List (Effect Float)) → states (xs ++ ys) ≡ states xs ++ states ys
states-append [] ys = refl
states-append (set_report b i d ∷ xs) ys = states-append xs ys
states-append (get_report b i n ∷ xs) ys = states-append xs ys
states-append (finalize_connection ∷ xs) ys = states-append xs ys
states-append (send_pause_pressed ∷ xs) ys = states-append xs ys
states-append (send_controller_state i ∷ xs) ys = ap (◌∷◌ i) (states-append xs ys)
states-append (sleep n ∷ xs) ys = states-append xs ys

-- The number of pauses for one packet.
abbrev pub press : Bool → Option Bool → ℕ
press held none = 0
press held (some down) = if not held && down then 1 else 0

abbrev pub held_after : Bool → Option Bool → Bool
held_after held none = held
held_after held (some down) = down

-- The end of a packet's handling sends a pause if the button went down, and no report.
abbrev pub end_effects : {Float : Type 0} → Bool → Bool → InputState Float → List (Effect Float)
end_effects held down i = pause_effects held down ++ send_controller_state i ∷ []

pub end_effects-pauses :
    {Float : Type 0} (held down : Bool) (i : InputState Float)
    → pauses (end_effects held down i) ≡ press held (some down)
end_effects-pauses held down i = ground arith

pub end_effects-reports :
    {Float : Type 0} (held down : Bool) (i : InputState Float)
    → reports (end_effects held down i) ≡ []
end_effects-reports held down i = ground arith

pub end_effects-states :
    {Float : Type 0} (held down : Bool) (i : InputState Float)
    → states (end_effects held down i) ≡ i ∷ []
end_effects-states held down i = ground arith

-- Effects that send no state, then the end of a packet's handling: one state is sent.
pub one_state :
    {Float : Type 0} (es : List (Effect Float)) (held down : Bool) (i : InputState Float)
    → states es ≡ []
    → states (es ++ end_effects held down i) ≡ i ∷ []
one_state es held down i quiet =
    states-append es (end_effects held down i) ∙ ap₂ ◌++◌ quiet (end_effects-states held down i)

pub no_state : {Float : Type 0} (es : List (Effect Float)) → states es ≡ [] → states (es ++ []) ≡ []
no_state es quiet = states-append es [] ∙ ap (λ xs. xs ++ []) quiet

-- What a controller's handler does with the pause button, `down` being what a packet says of it.
pub record Handles {S Float : Type 0} (Inv : S → Type 0) (held : S → Bool) (s : S)
    (down : Option Bool) (result : Option (Outcome S Float)) : Type 0 where
  pub outcome : Outcome S Float
  pub returns : result ≡ some outcome
  pub keeps : Inv outcome.state
  pub sends : pauses outcome.effects ≡ press (held s) down
  pub remembers : held outcome.state ≡ held_after (held s) down

presses-cons :
    (held : Bool) (d : Option Bool) (ds : List (Option Bool))
    → presses held (d ∷ ds) ≡ press held d + presses (held_after held d) ds
presses-cons held none ds = omega arith
presses-cons held (some down) ds = refl

module _ {S P Float : Type 0} (Inv : S → Type 0) (held : S → Bool) (down : P → Option Bool)
    (step : S → P → Option (Outcome S Float))
    (one_step : (s : S) (p : P) → Inv s → Handles Inv held s (down p) (step s p)) where
  pub run-pauses :
      (s : S) (ps : List P)
      → Inv s
      → (r : Outcome S Float) × (run step s ps ≡ some r)
        × Inv r.state
        × (pauses r.effects ≡ presses (held s) (map down ps))
  unfolding run
  run-pauses s [] inv = (record { state = s; effects = [] }, refl, inv, refl)
  run-pauses s (p ∷ ps) inv =
      let h = one_step s p inv in
      let (r, returns, keeps, sends) = run-pauses h.outcome.state ps h.keeps in
      (
        record r { effects = h.outcome.effects ++ r.effects },
        rw (h.returns, returns),
        keeps,
        pauses-append h.outcome.effects r.effects
            ∙ omega (
              arith,
              h.sends,
              sends,
              presses-cons (held s) (down p) (map down ps),
              ap (λ (b : Bool). presses b (map down ps)) h.remembers,
            ),
      )

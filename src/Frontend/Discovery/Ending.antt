-- ===== src/Frontend/Discovery/Ending.antt =====
-- When the calls of src/frontend/frontend.mm return that run an application's handlers.
use mathlib.Core.Path.{subst}
use mfi_wrapper.Prelude.{
  ℕ, zero, suc, ◌-◌, ◌≤◌, ◌<◌, ◌≡◌, refl, sym, ap, inl, inr, List, [], ◌∷◌, ◌++◌, Option, none,
  some, arith, Option-cases,
}
use mfi_wrapper.Frontend.Manager.{Frontend, startup, start_wireless_controller_discovery}
use mfi_wrapper.Frontend.Discovery.{
  Action, start_discovery, stop_discovery, get_controllers, Discovery, Run, ok, fault, out_of_fuel,
  ◌>>=◌, release, start_up, hold, call_block, stop, perform, handle, run,
}
use mfi_wrapper.Frontend.Discovery.Ownership.{
  IsOwned, with_call, start-IsOwned, call-IsOwned, return-IsOwned, start_up-IsOwned,
}

sets_handler :
    (f : Frontend) {g : Frontend} (handler : Option ℕ)
    → g ≡ start_wireless_controller_discovery f handler
    → g.discovery_completion_handler ≡ handler
unfolding start_wireless_controller_discovery
sets_handler f handler e = ap (λ g. g.discovery_completion_handler) e

-- A rank of the blocks that falls from a block to each that it starts: no block starts itself, directly
-- or through others.
module _ (rank : ℕ → ℕ) where
  abbrev pub Below : ℕ → Option ℕ → Type 0
  Below n none = Unit
  Below n (some b) = rank b < n

  -- All that a script starts has a lower rank.
  abbrev pub AllBelow : ℕ → List Action → Type 0
  AllBelow n [] = Unit
  AllBelow n (start_discovery handler ∷ rest) = Below n handler × AllBelow n rest
  AllBelow n (stop_discovery ∷ rest) = AllBelow n rest
  AllBelow n (get_controllers ∷ rest) = AllBelow n rest

  Below-mono : (m n : ℕ) (handler : Option ℕ) → m ≤ n → Below m handler → Below n handler
  Below-mono m n none le h = tt
  Below-mono m n (some b) le h = omega arith

  AllBelow-mono : (m n : ℕ) (script : List Action) → m ≤ n → AllBelow m script → AllBelow n script
  AllBelow-mono m n [] le h = tt
  AllBelow-mono m n (start_discovery handler ∷ rest) le (h, hs) =
      (Below-mono m n handler le h, AllBelow-mono m n rest le hs)
  AllBelow-mono m n (stop_discovery ∷ rest) le h = AllBelow-mono m n rest le h
  AllBelow-mono m n (get_controllers ∷ rest) le h = AllBelow-mono m n rest le h

  -- The run returns, with an owned state whose handler has a lower rank.
  abbrev Ends : ℕ → (ℕ → ℕ) → Run → Type 0
  Ends n pending (ok s) = IsOwned pending s × Below n s.frontend.discovery_completion_handler
  Ends n pending fault = ⊥
  Ends n pending out_of_fuel = ⊥

  Ends-bind :
      (n : ℕ) (pending : ℕ → ℕ) (r : Run) (f : Discovery → Run)
      → Ends n pending r
      → ((s : Discovery)
          → IsOwned pending s
          → Below n s.frontend.discovery_completion_handler
          → Ends n pending (f s))
      → Ends n pending (r >>= f)
  Ends-bind n pending (ok s) f (h, below) next = next s h below
  Ends-bind n pending fault f h next = h
  Ends-bind n pending out_of_fuel f h next = h

  returned :
      (n m : ℕ) (pending : ℕ → ℕ) (b : ℕ) (r : Run)
      → m ≤ n
      → Ends m (with_call b pending) r
      → Ends n pending (r >>= release (some b))
  returned n m pending b (ok s) le (h, below) =
      let (s', returns, owned, same, _) = return-IsOwned pending b s h in
      let low = Below-mono m n s.frontend.discovery_completion_handler le below in
      subst (Ends n pending) (sym returns)
        (owned, subst (λ f. Below n f.discovery_completion_handler) (sym same) low)
  returned n m pending b fault le h = h
  returned n m pending b out_of_fuel le h = h

  returns :
      (n : ℕ) (pending : ℕ → ℕ) (r : Run)
      → Ends n pending r
      → (s : Discovery) × (r ≡ ok s) × IsOwned pending s
  returns n pending (ok s) (h, below) = (s, refl, h)
  returns n pending fault h = absurd h
  returns n pending out_of_fuel h = absurd h

  -- A stop, where the handler of a lower rank ends.
  stop-Ends :
      (n m : ℕ) (body : ℕ → Discovery → Run)
      → m ≤ n
      → ((pending : ℕ → ℕ) (b : ℕ) (s : Discovery)
          → rank b < n
          → IsOwned pending s
          → s.frontend.discovery_completion_handler ≡ none
          → Ends m pending (body b s))
      → (pending : ℕ → ℕ) (s : Discovery) → IsOwned pending s
      → Below n s.frontend.discovery_completion_handler
      → Ends n pending (stop body s)
  unfolding stop call_block startup
  stop-Ends n m body le ends pending s h below =
      elim (Option-cases s.frontend.discovery_completion_handler) [
        | inl free ↦
            let turn : stop body s ≡ ok (start_up s) = simp (stop, free) in
            subst (Ends n pending) (sym turn) (start_up-IsOwned pending s h, below)
        | inr (b, holds) ↦
            let (owns, inside) = call-IsOwned pending b s holds h in
            let t = hold none (start_up s) in
            let called = record t { called = t.called ++ b ∷ [] } in
            let turn : stop body s ≡ (body b called >>= release (some b)) =
              simp (stop, holds, call_block, owns) in
            subst (Ends n pending) (sym turn) (
              returned n m pending b _ le
                (ends (with_call b pending) b called (subst (Below n) holds below) inside refl))
      ]

  perform-Ends :
      (n m : ℕ) (body : ℕ → Discovery → Run)
      → m ≤ n
      → ((pending : ℕ → ℕ) (b : ℕ) (s : Discovery)
          → rank b < n
          → IsOwned pending s
          → s.frontend.discovery_completion_handler ≡ none
          → Ends m pending (body b s))
      → (script : List Action) (pending : ℕ → ℕ) (s : Discovery) → AllBelow n script
      → IsOwned pending s
      → Below n s.frontend.discovery_completion_handler
      → Ends n pending (perform body script s)
  unfolding perform startup
  perform-Ends n m body le ends [] pending s low h below = (h, below)
  perform-Ends n m body le ends (start_discovery handler ∷ rest) pending s (l, low) h below =
      let (t, starts, owned, sets, _) = start-IsOwned pending handler s h in
      rw starts (
        perform-Ends n m body le ends rest pending t low owned
          (subst (Below n) (sym (sets_handler _ _ sets)) l))
  perform-Ends n m body le ends (stop_discovery ∷ rest) pending s low h below =
      Ends-bind n pending (stop body s) (perform body rest)
        (stop-Ends n m body le ends pending s h below)
        (λ t. perform-Ends n m body le ends rest pending t low)
  perform-Ends n m body le ends (get_controllers ∷ rest) pending s low h below =
      perform-Ends n m body le ends rest pending (start_up s) low (start_up-IsOwned pending s h)
        below

  module _ (bodies : ℕ → List Action) (falls : (b : ℕ) → AllBelow (rank b) (bodies b)) where
    handle-Ends :
        (fuel : ℕ) (pending : ℕ → ℕ) (b : ℕ) (s : Discovery)
        → rank b < fuel
        → IsOwned pending s
        → s.frontend.discovery_completion_handler ≡ none
        → Ends (fuel - 1) pending (handle bodies fuel b s)
    unfolding handle
    handle-Ends zero pending b s small h free = absurd (omega arith)
    handle-Ends (suc fuel) pending b s small h free =
        let n : suc fuel - 1 ≡ fuel = omega arith in
        rw n (
          perform-Ends fuel (fuel - 1) (handle bodies fuel) (omega arith) (handle-Ends fuel)
            (bodies b) pending s (AllBelow-mono (rank b) fuel (bodies b) (omega arith) (falls b)) h
            (subst (Below fuel) (sym free) tt))

    -- If there is a rank of the blocks such that what each block does starts only blocks of a lower
    -- rank, then from a state whose references are owned and where no block is being called, a
    -- script of calls that starts only blocks of a rank below the fuel, with a handler of such a
    -- rank or none, returns: no fault, enough fuel, and in the state behind it the references are
    -- owned again, so that the frontend owns one reference to its handler and none to any other
    -- block, and no block was called more often than it was copied.
    pub discovery_returns :
        (fuel : ℕ) (script : List Action) (s : Discovery)
        → IsOwned (λ _. 0) s
        → Below fuel s.frontend.discovery_completion_handler
        → AllBelow fuel script
        → (s' : Discovery) × (run bodies fuel script s ≡ ok s') × IsOwned (λ _. 0) s'
    unfolding run
    discovery_returns fuel script s h below low =
        returns fuel (λ _. 0) (run bodies fuel script s)
          (perform-Ends fuel (fuel - 1) (handle bodies fuel) (omega arith) (handle-Ends fuel) script
            (λ _. 0) s low h below)

-- A stop runs the block again, from inside of itself.
restarting :
    (bodies : ℕ → List Action) (b : ℕ) (rest : List Action)
    → bodies b ≡ start_discovery (some b) ∷ stop_discovery ∷ rest
    → (fuel : ℕ) (pending : ℕ → ℕ) (s : Discovery) → IsOwned pending s
    → s.frontend.discovery_completion_handler ≡ some b
    → stop (handle bodies fuel) s ≡ out_of_fuel
unfolding stop call_block handle perform
restarting bodies b rest e zero pending s h holds =
    simp (stop, holds, call_block, (call-IsOwned pending b s holds h).0)
restarting bodies b rest e (suc fuel) pending s h holds =
    let (owns, inside) = call-IsOwned pending b s holds h in
    let t = hold none (start_up s) in
    let called = record t { called = t.called ++ b ∷ [] } in
    let (u, starts, owned, sets, _) = start-IsOwned (with_call b pending) (some b) called inside in
    let again =
      restarting bodies b rest e fuel (with_call b pending) u owned (sets_handler _ _ sets) in
    simp (stop, holds, call_block, owns, e, perform, starts, again)

-- If a block starts discovery with itself as its handler and then stops it: in a state where the
-- references are owned, with one for each call that has not returned, and this block is the handler,
-- a stop runs out of any fuel, so that it never returns.
pub self_restart_never_returns :
    (bodies : ℕ → List Action) (b : ℕ) (rest more : List Action)
    → bodies b ≡ start_discovery (some b) ∷ stop_discovery ∷ rest
    → (fuel : ℕ) (pending : ℕ → ℕ) (s : Discovery) → IsOwned pending s
    → s.frontend.discovery_completion_handler ≡ some b
    → run bodies fuel (stop_discovery ∷ more) s ≡ out_of_fuel
unfolding run perform handle
self_restart_never_returns bodies b rest more e fuel pending s h holds =
    rw (restarting bodies b rest e fuel pending s h holds)

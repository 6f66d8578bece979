-- ===== src/Frontend/Discovery/Ownership.antt =====
-- The references of src/frontend/frontend.mm to the handlers of a discovery.
use mfi_wrapper.Prelude.{
  ℕ, zero, suc, ◌+◌, ◌-◌, ◌≤◌, ◌≡◌, refl, sym, ap, ◌∙◌, inl, inr, false, List, [], ◌∷◌, ◌++◌,
  Option, none, some, arith, ◌==◌, if◌then◌else◌, Option-cases,
}
use mathlib.Core.Path.{subst}
use mfi_wrapper.Frontend.Manager.{startup, start_wireless_controller_discovery}
use mfi_wrapper.Frontend.Discovery.{
  Action, start_discovery, stop_discovery, get_controllers, Discovery, Run, ok, fault, out_of_fuel,
  ◌>>=◌, release, copy, start, start_up, hold, call_block, stop, perform, handle, run,
}

-- How often a block is a list's element, or the handler.
unfoldable pub occurrences : ℕ → List ℕ → ℕ
occurrences b [] = 0
occurrences b (x ∷ xs) = (if x == b then 1 else 0) + occurrences b xs

abbrev pub held : Option ℕ → ℕ → ℕ
held none b = 0
held (some a) b = if a == b then 1 else 0

occurrences-snoc :
    (b x : ℕ) (xs : List ℕ) → occurrences b (xs ++ x ∷ []) ≡ occurrences b xs + held (some x) b
unfolding occurrences
occurrences-snoc b x [] = ground arith
occurrences-snoc b x (y ∷ ys) = ground (arith, occurrences-snoc b x ys)

-- The frontend owns one reference for its handler and one for each call of a block that has not
-- returned (`pending`), and a block is called no more often than it was copied.
pub record IsOwned (pending : ℕ → ℕ) (s : Discovery) : Type 0 where
  pub owned : (b : ℕ) → s.references b ≡ held s.frontend.discovery_completion_handler b + pending b
  pub once :
      (b : ℕ)
      → occurrences b s.called + held s.frontend.discovery_completion_handler b
        ≤ occurrences b s.copied

-- No fault, and an owned state at the end.
abbrev pub Sound : (ℕ → ℕ) → Run → Type 0
Sound pending (ok s) = IsOwned pending s
Sound pending fault = ⊥
Sound pending out_of_fuel = Unit

Sound-bind :
    (pending : ℕ → ℕ) (r : Run) (f : Discovery → Run)
    → Sound pending r
    → ((s : Discovery) → IsOwned pending s → Sound pending (f s))
    → Sound pending (r >>= f)
Sound-bind pending (ok s) f h next = next s h
Sound-bind pending fault f h next = h
Sound-bind pending out_of_fuel f h next = h

pub start_up-IsOwned :
    (pending : ℕ → ℕ) (s : Discovery) → IsOwned pending s → IsOwned pending (start_up s)
unfolding startup
start_up-IsOwned pending s h = record { owned = h.owned; once = h.once }

-- A release of an owned reference succeeds.
record Releases (handler : Option ℕ) (left : ℕ → ℕ) (s s' : Discovery) : Type 0 where
  pub returns : release handler s ≡ ok s'
  pub references : (b : ℕ) → s'.references b ≡ left b
  pub frontend : s'.frontend ≡ s.frontend
  pub copied : s'.copied ≡ s.copied
  pub called : s'.called ≡ s.called

release-Releases :
    (handler : Option ℕ) (left : ℕ → ℕ) (s : Discovery)
    → ((b : ℕ) → s.references b ≡ held handler b + left b)
    → (s' : Discovery) × Releases handler left s s'
unfolding release
release-Releases none left s h = (
  s,
  record {
    returns = refl;
    references = λ b. omega (arith, h b);
    frontend = refl;
    copied = refl;
    called = refl;
  },
)
release-Releases (some a) left s h = (
  record s { references = λ k. if a == k then s.references k - 1 else s.references k },
  record {
    returns = ground (arith, h a);
    references = λ b. ground (arith, h b);
    frontend = refl;
    copied = refl;
    called = refl;
  },
)

copy-references :
    (handler : Option ℕ) (s : Discovery) (b : ℕ)
    → (copy handler s).references b ≡ held handler b + s.references b
unfolding copy
copy-references none s b = omega arith
copy-references (some a) s b = ground arith

copy-copied :
    (handler : Option ℕ) (s : Discovery) (b : ℕ)
    → occurrences b (copy handler s).copied ≡ occurrences b s.copied + held handler b
unfolding copy
copy-copied none s b = omega arith
copy-copied (some a) s b = occurrences-snoc b a s.copied

copy-called : (handler : Option ℕ) (s : Discovery) → (copy handler s).called ≡ s.called
unfolding copy
copy-called none s = refl
copy-called (some a) s = refl

copy-frontend : (handler : Option ℕ) (s : Discovery) → (copy handler s).frontend ≡ s.frontend
unfolding copy
copy-frontend none s = refl
copy-frontend (some a) s = refl

pub start-IsOwned :
    (pending : ℕ → ℕ) (handler : Option ℕ) (s : Discovery)
    → IsOwned pending s
    → (s' : Discovery) × (start handler s ≡ ok s')
      × IsOwned pending s'
      × (s'.frontend ≡ start_wireless_controller_discovery s.frontend handler)
      × (s'.called ≡ s.called)
unfolding start startup start_wireless_controller_discovery
start-IsOwned pending handler s h =
    let (t, r) =
      release-Releases s.frontend.discovery_completion_handler pending (start_up s) h.owned in
    (
      hold handler (copy handler t),
      rw (r.returns),
      record {
        owned = λ b. omega (arith, copy-references handler t b, r.references b);
        once = λ b.
            rw (copy-called handler t, r.called)
              (omega (arith, copy-copied handler t b, h.once b, ap (occurrences b) r.copied));
      },
      rw (copy-frontend handler t, r.frontend),
      copy-called handler t ∙ r.called,
    )

-- A stop with a handler, up to the call: the reference that was the handler's is the call's.
abbrev pub with_call : ℕ → (ℕ → ℕ) → ℕ → ℕ
with_call b pending k = held (some b) k + pending k

pub call-IsOwned :
    (pending : ℕ → ℕ) (b : ℕ) (s : Discovery)
    → s.frontend.discovery_completion_handler ≡ some b
    → IsOwned pending s
    → let t = hold none (start_up s) in
      ((t.references b == 0) ≡ false)
      × IsOwned (with_call b pending) (record t { called = t.called ++ b ∷ [] })
unfolding startup
call-IsOwned pending b s e h = (
  ground (arith, h.owned b, e),
  record {
    owned = λ k. ground (arith, h.owned k, e);
    once = λ k. ground (arith, h.once k, e, occurrences-snoc k b s.called);
  },
)

-- Behind the call.
pub return-IsOwned :
    (pending : ℕ → ℕ) (b : ℕ) (s : Discovery)
    → IsOwned (with_call b pending) s
    → (s' : Discovery) × (release (some b) s ≡ ok s')
      × IsOwned pending s'
      × (s'.frontend ≡ s.frontend)
      × (s'.called ≡ s.called)
return-IsOwned pending b s h =
    let (t, r) =
      release-Releases (some b) (λ k. held s.frontend.discovery_completion_handler k + pending k) s
        (λ k. omega (arith, h.owned k)) in
    (
      t,
      r.returns,
      record {
        owned = λ k. rw (r.frontend) (r.references k);
        once = λ k. rw (r.frontend, r.called, r.copied) (h.once k);
      },
      r.frontend,
      r.called,
    )

returned :
    (pending : ℕ → ℕ) (b : ℕ) (r : Run)
    → Sound (with_call b pending) r
    → Sound pending (r >>= release (some b))
returned pending b (ok s) h =
    let (s', returns, owned, _, _) = return-IsOwned pending b s h in
    subst (Sound pending) (sym returns) owned
returned pending b fault h = h
returned pending b out_of_fuel h = h

-- A body that is sound, whatever is pending.
module _ (body : ℕ → Discovery → Run)
    (sound : (pending : ℕ → ℕ) (b : ℕ) (s : Discovery)
      → IsOwned pending s
      → Sound pending (body b s)) where
  stop-Sound : (pending : ℕ → ℕ) (s : Discovery) → IsOwned pending s → Sound pending (stop body s)
  unfolding stop call_block
  stop-Sound pending s h = elim (Option-cases s.frontend.discovery_completion_handler) [
    | inl free ↦
        let turn : stop body s ≡ ok (start_up s) = simp (stop, free) in
        subst (Sound pending) (sym turn) (start_up-IsOwned pending s h)
    | inr (b, holds) ↦
        let (owns, inside) = call-IsOwned pending b s holds h in
        let t = hold none (start_up s) in
        let turn : stop body s
            ≡ (body b (record t { called = t.called ++ b ∷ [] }) >>= release (some b)) =
          simp (stop, holds, call_block, owns) in
        subst (Sound pending) (sym turn)
          (returned pending b _ (sound (with_call b pending) b _ inside))
  ]

  perform-Sound :
      (script : List Action) (pending : ℕ → ℕ) (s : Discovery)
      → IsOwned pending s
      → Sound pending (perform body script s)
  unfolding perform
  perform-Sound [] pending s h = h
  perform-Sound (start_discovery handler ∷ rest) pending s h =
      let (t, starts, owned, _, _) = start-IsOwned pending handler s h in
      rw starts (perform-Sound rest pending t owned)
  perform-Sound (stop_discovery ∷ rest) pending s h =
      Sound-bind pending (stop body s) (perform body rest) (stop-Sound pending s h)
        (λ t. perform-Sound rest pending t)
  perform-Sound (get_controllers ∷ rest) pending s h =
      perform-Sound rest pending (start_up s) (start_up-IsOwned pending s h)

module _ (bodies : ℕ → List Action) where
  handle-Sound :
      (fuel : ℕ) (pending : ℕ → ℕ) (b : ℕ) (s : Discovery)
      → IsOwned pending s
      → Sound pending (handle bodies fuel b s)
  unfolding handle
  handle-Sound zero pending b s h = tt
  handle-Sound (suc fuel) pending b s h =
      perform-Sound (handle bodies fuel) (handle-Sound fuel) (bodies b) pending s h

  -- Whatever the blocks of an application do, and on any fuel: from a state where the references are
  -- owned, with one for each call that has not returned, a script of calls of the frontend never
  -- releases or calls a block of which the frontend owns no reference; and if it returns, the
  -- references are owned as before, and no block was called more often than it was copied.
  pub run-Sound :
      (fuel : ℕ) (script : List Action) (pending : ℕ → ℕ) (s : Discovery)
      → IsOwned pending s
      → Sound pending (run bodies fuel script s)
  unfolding run
  run-Sound fuel = perform-Sound (handle bodies fuel) (handle-Sound fuel)

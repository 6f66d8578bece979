-- ===== src/Process/Order.antt =====
-- The order in which the two threads of src/backend/backend.cpp set up what the callbacks use.
use mathlib.Core.Path.{subst}
use mfi_wrapper.Prelude.{
  ℕ, ◌≡◌, ◌≢◌, refl, List, [], ◌∷◌, ◌++◌, Option, none, some, true, ◌==◌, if◌then◌else◌, arith, sym,
  ap, ◌∙◌, unsome, Option-cases, Bool-cases, inl, inr,
}
use mfi_wrapper.Prelude.Int.{ℤ, pos, negsuc}
use mfi_wrapper.Connection.Endpoint.{Endpoint, Thread, application, manager, open_endpoint}
use mfi_wrapper.Connection.Defs.{fresh}
use mfi_wrapper.HidManager.Matching.{ManagerRef, null, released, live, started, start_up, shut_down}
use mfi_wrapper.Frontend.Manager as Manager
use mfi_wrapper.System.{boot}
use mfi_wrapper.Process.{
  Point, created, connected, running, left, finished, Answers, Host, Process, initial, hack_start,
  startup, advance, manager_moves,
}

-- What happens: the application calls Startup, through any function of frontend.h, or the manager
-- thread goes on.
pub data Event : Type 0 where
  starts : Answers → Event
  moves : Event

-- The frontend before its first Startup, and after it.
abbrev frontend_with : Option Endpoint → Manager.Frontend
frontend_with none = Manager.initial
frontend_with (some e) = Manager.startup Manager.initial

-- The system at its word: the manager is made, and a descriptor that socketpair gave is made non-blocking and
-- given a socket.
pub record IsWorking (host : Host) : Type 0 where
  pub made : host.manager_answers.is_made ≡ true
  pub non_blocking : (d : ℕ) → (host.opening (pos d)).sets_non_blocking ≡ true
  pub has_socket : (d : ℕ) → (host.opening (pos d)).gives_socket ≡ true

-- A new connection with its source in a thread's run loop.
abbrev pub fresh_end : Thread → ℤ → Endpoint
fresh_end thread d = record {
  descriptor = d;
  is_non_blocking = true;
  source = some thread;
  connection = fresh;
}

-- socketpair gives a pair.
abbrev pub Enabled : Event → Type 0
Enabled (starts a) = a.pair ≢ none
Enabled moves = Unit

module _ (host : Host) where
  abbrev pub step : Event → Process → Option Process
  step (starts a) p = startup host a p
  step moves p = manager_moves host p

  pub data Reachable : Process → Type 0 where
    at_start : Reachable initial
    next :
        (e : Event) (p p' : Process) → Reachable p → Enabled e → step e p ≡ some p' → Reachable p'

  open_lem :
      IsWorking host
      → (thread : Thread) (d : ℕ)
      → open_endpoint (host.opening (pos d)) thread (pos d) ≡ some (fresh_end thread (pos d))
  unfolding open_endpoint
  open_lem w thread d = rw (w.has_socket d, w.non_blocking d)

  abbrev pub the_manager : ManagerRef
  the_manager = live (started host.usages host.manager_answers.opens)

  -- The backend's connection and the HID manager, by the place of the manager thread.
  abbrev Staged : Option Point → Process → Type 0
  Staged none p = (p.thread ≡ 0) × (p.backend_end ≡ none) × (p.hid_manager ≡ null)
  Staged (some created) p = (p.thread ≢ 0) × (p.backend_end ≡ none) × (p.hid_manager ≡ null)
  Staged (some connected) p =
      (p.thread ≢ 0)
      × (p.backend_end ≡ some (fresh_end manager p.sockets.0))
      × (p.hid_manager ≡ null)
  Staged (some running) p =
      (p.thread ≢ 0)
      × (p.backend_end ≡ some (fresh_end manager p.sockets.0))
      × (p.hid_manager ≡ the_manager)
  Staged (some left) p =
      (p.thread ≢ 0)
      × (p.backend_end ≡ some (fresh_end manager p.sockets.0))
      × (p.hid_manager ≡ the_manager)
  Staged (some finished) p =
      (p.thread ≢ 0)
      × (p.backend_end ≡ some (fresh_end manager p.sockets.0))
      × (p.hid_manager ≡ released)

  -- HACKStart has run once, if the frontend has its end, and not before.
  abbrev Asked : Option Endpoint → List Answers → ℤ × ℤ → ℕ → Type 0
  Asked none answers sockets thread =
      (answers ≡ []) × (sockets ≡ (negsuc 0, negsuc 0)) × (thread ≡ 0)
  Asked (some e) answers sockets thread =
      (a : Answers) × (x y : ℕ) × (answers ≡ a ∷ [])
      × (a.pair ≡ some (x, y))
      × (sockets ≡ (pos x, pos y))
      × (thread ≡ a.thread)
      × (e ≡ fresh_end application (pos y))

  record IsOrdered (p : Process) : Type 0 where
    staged : Staged p.point p
    asked : Asked p.frontend_end p.answers p.sockets p.thread
    known : p.frontend ≡ frontend_with p.frontend_end

  -- No thread runs before it is made.
  unstarted : (point : Option Point) (p : Process) → p.thread ≡ 0 → Staged point p → Staged none p
  unstarted none p e h = h
  unstarted (some created) p e h = absurd (h.0 e)
  unstarted (some connected) p e h = absurd (h.0 e)
  unstarted (some running) p e h = absurd (h.0 e)
  unstarted (some left) p e h = absurd (h.0 e)
  unstarted (some finished) p e h = absurd (h.0 e)

  -- The parts that Startup leaves to the manager thread.
  restaged :
      (point : Option Point) (p : Process) (f : Manager.Frontend)
      → Staged point p
      → Staged point (record p { frontend = f })
  restaged none p f h = h
  restaged (some created) p f h = h
  restaged (some connected) p f h = h
  restaged (some running) p f h = h
  restaged (some left) p f h = h
  restaged (some finished) p f h = h

  -- The first answers of the system, and no others: a pair of sockets, and a thread.
  abbrev pub Started : ℕ → ℕ → Process → Type 0
  Started x y p =
      (a : Answers) × (p.answers ≡ a ∷ [])
      × (a.pair ≡ some (x, y))
      × (p.thread ≡ a.thread)
      × (p.sockets ≡ (pos x, pos y))

  asked_once :
      (end : Option Endpoint) (p : Process)
      → p.thread ≢ 0
      → Asked end p.answers p.sockets p.thread
      → (x y : ℕ) × Started x y p × (end ≡ some (fresh_end application (pos y)))
  asked_once none p runs (_, _, e) = absurd (runs e)
  asked_once (some e) p runs (a, x, y, asked, pair, sockets, made_so, opened) =
      (x, y, (a, asked, pair, made_so, sockets), ap some opened)

  module _ (w : IsWorking host) where
    advanced :
        (point : Point) (p : Process)
        → IsOrdered p
        → Staged (some point) p
        → (p' : Process) × (advance host point p ≡ some p') × IsOrdered p'
    unfolding advance shut_down start_up
    advanced created p h (t, b, m) =
        let (x, y, (_, _, _, _, sockets), _) = asked_once p.frontend_end p t h.asked in
        let first = ap (λ q. q.0) sockets in
        let opened : open_endpoint (host.opening p.sockets.0) manager p.sockets.0
            ≡ some (fresh_end manager p.sockets.0) =
          subst (λ d. open_endpoint (host.opening d) manager d ≡ some (fresh_end manager d))
            (sym first) (open_lem w manager x) in
        (
          record p { backend_end = some (fresh_end manager p.sockets.0); point = some connected },
          rw opened,
          record { staged = (t, refl, m); asked = h.asked; known = h.known },
        )
    advanced connected p h (t, b, m) = (
      record p { hid_manager = the_manager; point = some running },
      simp (advance, start_up, w.made),
      record { staged = (t, b, refl); asked = h.asked; known = h.known },
    )
    advanced running p h (t, b, m) =
        (_, refl, record { staged = (t, b, m); asked = h.asked; known = h.known })
    advanced left p h (t, b, m) = (
      record p { hid_manager = released; point = some finished },
      simp (advance, m, shut_down),
      record { staged = (t, b, refl); asked = h.asked; known = h.known },
    )
    advanced finished p h staged = (p, refl, h)

    -- What the first Startup leaves.
    abbrev restarted : Answers → ℕ → ℕ → Process → Process
    restarted a x y p = record p {
      thread = a.thread;
      sockets = (pos x, pos y);
      point = if a.thread == 0 then none else some created;
      answers = p.answers ++ a ∷ [];
      frontend_end = some (fresh_end application (pos y));
      frontend = Manager.startup p.frontend;
    }

    restart :
        (a : Answers) (x y : ℕ) (p : Process)
        → a.pair ≡ some (x, y)
        → p.frontend_end ≡ none
        → p.thread ≡ 0
        → startup host a p ≡ some (restarted a x y p)
    unfolding startup hack_start
    restart a x y p pair missing no_thread =
        simp (startup, missing, hack_start, no_thread, pair, open_lem w application y)

    made :
        (thread : ℕ) (p : Process)
        → p.thread ≡ thread
        → p.backend_end ≡ none
        → p.hid_manager ≡ null
        → Staged (if thread == 0 then none else some created) p
    made thread p e no_end no_manager = elim (Bool-cases (thread == 0)) [
      | inl failed ↦ rw failed (ground arith, no_end, no_manager)
      | inr works ↦ rw works (ground arith, no_end, no_manager)
    ]

    startup-IsOrdered :
        (a : Answers) (p : Process)
        → a.pair ≢ none
        → IsOrdered p
        → (p' : Process) × (startup host a p ≡ some p') × IsOrdered p'
    unfolding startup hack_start Manager.startup
    startup-IsOrdered a p has_pair h = elim (Option-cases p.frontend_end) [
      | inr (e, there) ↦ (
        record p { frontend = Manager.startup p.frontend },
        simp (startup, there),
        record {
          staged = restaged p.point p (Manager.startup p.frontend) h.staged;
          asked = h.asked;
          known = simp (h.known, there);
        },
      )
      | inl missing ↦ elim (Option-cases a.pair) [
        | inl no_pair ↦ absurd (has_pair no_pair)
        | inr ((x, y), pair) ↦
            let (none_yet, _, no_thread) =
              subst (λ o. Asked o p.answers p.sockets p.thread) missing h.asked in
            let (_, no_end, no_manager) = unstarted p.point p no_thread h.staged in
            (
              restarted a x y p,
              restart a x y p pair missing no_thread,
              record {
                staged = made a.thread _ refl no_end no_manager;
                asked = (a, x, y, ap (λ l. l ++ a ∷ []) none_yet, pair, refl, refl, refl);
                known = simp (h.known, missing);
              },
            )
      ]
    ]

    moves-IsOrdered :
        (p : Process)
        → IsOrdered p
        → (p' : Process) × (manager_moves host p ≡ some p') × IsOrdered p'
    unfolding manager_moves
    moves-IsOrdered p h = elim (Option-cases p.point) [
      | inl unmade ↦ (p, simp (manager_moves, unmade), h)
      | inr (point, e) ↦
          let (p', moved, h') = advanced point p h (subst (λ q. Staged q p) e h.staged) in
          (p', simp (manager_moves, e, moved), h')
    ]

    step-IsOrdered :
        (e : Event) (p : Process)
        → Enabled e
        → IsOrdered p
        → (p' : Process) × (step e p ≡ some p') × IsOrdered p'
    step-IsOrdered (starts a) p enabled h = startup-IsOrdered a p enabled h
    step-IsOrdered moves p enabled h = moves-IsOrdered p h

    Reachable-IsOrdered : (p : Process) → Reachable p → IsOrdered p
    Reachable-IsOrdered _ at_start = record {
      staged = (refl, refl, refl);
      asked = (refl, refl, refl);
      known = refl;
    }
    Reachable-IsOrdered _ (next e p p' before enabled steps) =
        let (q, moved, h) = step-IsOrdered e p enabled (Reachable-IsOrdered p before) in
        subst IsOrdered (unsome (sym moved ∙ steps)) h

    -- If the system makes the HID manager, and makes each descriptor that socketpair gave
    -- non-blocking and gives it a CFSocket: in any state that the manager thread and calls of
    -- Startup for which socketpair gives a pair lead to, with any answers of pthread_create, every
    -- further such call and every next part of ManagerThread succeeds, so that no connection has a
    -- null socket and ShutDown never finds a HID manager that is not there, and leads to such a
    -- state.
    pub no_start_faults :
        (e : Event) (p : Process)
        → Reachable p
        → Enabled e
        → (p' : Process) × (step e p ≡ some p') × Reachable p'
    no_start_faults e p before enabled =
        let (p', moved, _) = step-IsOrdered e p enabled (Reachable-IsOrdered p before) in
        (p', moved, next e p p' before enabled moved)

    -- If the system makes the HID manager, and makes each descriptor that socketpair gave
    -- non-blocking and gives it a CFSocket: in any state that the manager thread and calls of
    -- Startup for which socketpair gives a pair lead to, with the manager thread in its run loop,
    -- the system was asked for sockets and a thread just once; the backend's connection, served by
    -- the manager thread, and the frontend's, served by the application's thread, are fresh and
    -- non-blocking and have the first and the second descriptor of that pair; the HID manager is the
    -- one that StartUp makes; and the frontend is in the state that the steps of the whole program
    -- start from.
    pub loop_finds_boot :
        (Float : Type 0) (buffer : List ℕ) (p : Process)
        → Reachable p
        → p.point ≡ some running
        → (x y : ℕ) × Started x y p
          × (p.frontend_end ≡ some (fresh_end application (pos y)))
          × (p.backend_end ≡ some (fresh_end manager (pos x)))
          × (p.hid_manager ≡ the_manager)
          × (p.frontend ≡ (boot {Float = Float} buffer).frontend)
    unfolding boot
    loop_finds_boot Float buffer p before e =
        let h = Reachable-IsOrdered p before in
        let (runs, opened, managed) = subst (λ q. Staged q p) e h.staged in
        let (x, y, first, there) = asked_once p.frontend_end p runs h.asked in
        let (_, _, _, _, sockets) = first in
        (
          x,
          y,
          first,
          there,
          opened ∙ ap (λ s. some (fresh_end manager s.0)) sockets,
          managed,
          h.known ∙ ap frontend_with there,
        )

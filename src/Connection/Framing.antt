-- ===== src/Connection/Framing.antt =====
-- `Parse` delivers the packets of the stream, however the system splits it.
use mathlib.Core.List.{flatten, map-append}
use mfi_wrapper.Prelude.{
  ℕ, ◌+◌, ◌-◌, ◌%◌, ◌^◌, ◌≤◌, ◌<◌, min, ◌≡◌, refl, sym, ap, ◌∙◌, List, [], ◌∷◌, ◌++◌, map, some,
  append-nil, append_assoc, arith, length, take, drop, length-append, length-take, length-drop,
  take-append-drop, length_zero, ==_true,
}
use mfi_wrapper.Connection.Defs.{
  Connection, fresh, target_size, ReadResult, would_block, received, store, read, finish, Parsed,
  after_handling, parse,
}
use mfi_wrapper.Connection.Sync.{
  AllFrames, padded, Holds, Synced, fresh-Synced, store-Holds, finish_inside, finish_end, Taken,
  nothing, some_bytes, read-Taken,
}

-- What `Parse` has done with the packets `frames`: it handled the first of them, in order and whole,
-- and is synchronised with the others.
pub record Delivered (frames : List (List ℕ)) (r : Parsed) : Type 0 where
  pub done : List (List ℕ)
  pub rest : List (List ℕ)
  pub split : done ++ rest ≡ frames
  pub handled : r.handled ≡ map padded done
  pub synced : Synced r.connection r.pending rest

abbrev pub AllPositive : List ℕ → Type 0
AllPositive [] = Unit {0}
AllPositive (k ∷ ks) = (0 < k) × AllPositive ks

-- The bytes left when each of `n` calls of `read` took at least one.
abbrev Drains : List ℕ → List ℕ → Parsed → Type 0
Drains schedule pending r =
    AllPositive schedule → length r.pending ≤ length pending - length schedule

read_nothing : (ready : ℕ) (c : Connection) → read ready c [] ≡ would_block
unfolding read
read_nothing ready c =
    rw
      (==_true (min ready (min ((target_size c + 2 ^ 32 - c.position) % 2 ^ 32) 0)) 0 (omega arith))
      refl

-- The rest of the loop's body, once more bytes are stored: the reader stays inside the frame, or
-- handles it and is at the start of the next.
record Settled (frames : List (List ℕ)) (pending : List ℕ) (c : Connection) : Type 0 where
  done : List (List ℕ)
  rest : List (List ℕ)
  split : done ++ rest ≡ frames
  handled : (finish c).1 ≡ map padded done
  all : AllFrames rest
  synced : Synced (finish c).0 pending rest

settle :
    (f : List ℕ) (fs : List (List ℕ)) (part tail : List ℕ) (c : Connection)
    → AllFrames (f ∷ fs)
    → Holds part c
    → part ++ tail ≡ f
    → 0 < length part
    → Settled (f ∷ fs) (tail ++ flatten fs) c
settle f fs part [] c all h joined begun =
    let whole : part ≡ f = sym (append-nil part) ∙ joined in
    let ended : finish c ≡ (fresh, padded f ∷ []) = finish_end f c (rw whole at h) all.0 in
    record {
      done = f ∷ [];
      rest = fs;
      split = refl;
      handled = rw ended;
      all = all.1;
      synced = rw ended (fresh-Synced fs all.1);
    }
settle f fs part (x ∷ tail) c all h joined begun =
    let inside : finish c ≡ (c, []) =
      finish_inside part (x ∷ tail) c h (rw joined all.0) begun (omega arith) in
    record {
      done = [];
      rest = f ∷ fs;
      split = refl;
      handled = rw inside;
      all = all;
      synced = rw inside (record {
        part = part;
        tail = x ∷ tail;
        holds = h;
        joined = joined;
        unfinished = omega arith;
        waiting = refl;
      });
    }

advance :
    (f : List ℕ) (fs : List (List ℕ)) (part tail : List ℕ) (c : Connection) (n : ℕ)
    → AllFrames (f ∷ fs)
    → Holds part c
    → part ++ tail ≡ f
    → 0 < n
    → n ≤ length tail
    → Settled (f ∷ fs) (drop n tail ++ flatten fs) (store c (take n tail))
advance f fs part tail c n all h joined some_n fits =
    settle f fs (part ++ take n tail) (drop n tail) (store c (take n tail)) all
      (store-Holds part (take n tail) c h
        (omega (arith, all.0.fits, ap length joined, length-append part tail, length-take n tail)))
      (append_assoc part (take n tail) (drop n tail) ∙ rw (take-append-drop n tail) joined)
      (omega (arith, length-append part (take n tail), length-take n tail))

-- The handled packets of a body of the loop come before those of the rest of the loop.
prepend :
    {frames : List (List ℕ)} {pending : List ℕ} {c : Connection} (s : Settled frames pending c)
    (r : Parsed)
    → Delivered s.rest r
    → Delivered frames (after_handling (finish c).1 r)
unfolding after_handling
prepend s r d = record {
  done = s.done ++ d.done;
  rest = d.rest;
  split = append_assoc s.done d.done d.rest ∙ rw d.split s.split;
  handled = rw (s.handled, d.handled) (sym (map-append padded s.done d.done));
  synced = d.synced;
}

abbrev Outcome : List ℕ → Connection → List ℕ → List (List ℕ) → Type 0
Outcome schedule c pending frames =
    (r : Parsed) × (parse schedule c pending ≡ some r)
    × Delivered frames r
    × Drains schedule pending r

-- Where nothing is read, `Parse` returns.
idle :
    (ready : ℕ) (schedule : List ℕ) (c : Connection) (pending : List ℕ) (frames : List (List ℕ))
    → read ready c pending ≡ would_block
    → Synced c pending frames
    → (AllPositive (ready ∷ schedule) → pending ≡ [])
    → Outcome (ready ∷ schedule) c pending frames
unfolding parse
idle ready schedule c pending frames e s stuck = (
  record { connection = c; pending = pending; handled = [] },
  rw (e, parse),
  record { done = []; rest = frames; split = refl; handled = refl; synced = s },
  λ positive. omega (arith, ap length (stuck positive)),
)

-- Where bytes are read, the rest of the loop goes on from there.
proceed :
    (ready : ℕ) (schedule : List ℕ) (c c' : Connection) (pending pending' : List ℕ)
    (frames : List (List ℕ))
    → read ready c pending ≡ received c' pending'
    → length pending' < length pending
    → (s : Settled frames pending' c') → Outcome schedule (finish c').0 pending' s.rest
    → Outcome (ready ∷ schedule) c pending frames
unfolding parse
proceed ready schedule c c' pending pending' frames e fewer s (r, parses, delivered, drains) = (
  after_handling (finish c').1 r,
  rw (e, parse, parses),
  prepend s r delivered,
  λ positive. unfold after_handling in omega (arith, drains positive.1),
)

pub parse-Outcome :
    (schedule : List ℕ) (frames : List (List ℕ)) (c : Connection) (pending : List ℕ)
    → AllFrames frames
    → Synced c pending frames
    → Outcome schedule c pending frames
parse-Outcome [] frames c pending all s = (
  record { connection = c; pending = pending; handled = [] },
  unfold parse in refl,
  record { done = []; rest = frames; split = refl; handled = refl; synced = s },
  λ positive. omega arith,
)
parse-Outcome (ready ∷ schedule) [] c pending all (h, e) =
    idle ready schedule c pending [] (rw e (read_nothing ready c)) (h, e) (λ _. e)
parse-Outcome (ready ∷ schedule) (f ∷ fs) c pending all s =
    go (read ready c (s.tail ++ flatten fs)) (ap (read ready c) s.waiting) taken
      (λ rest c' left. parse-Outcome schedule rest c' left)
  where
    taken : Taken ready c s.tail (flatten fs) (read ready c (s.tail ++ flatten fs))
    taken = read-Taken ready s.part s.tail (flatten fs) c s.holds (rw s.joined all.0) s.unfinished

    go :
        (out : ReadResult)
        → read ready c pending ≡ out
        → Taken ready c s.tail (flatten fs) out
        → ((rest : List (List ℕ)) (c' : Connection) (left : List ℕ)
            → AllFrames rest
            → Synced c' left rest
            → Outcome schedule c' left rest)
        → Outcome (ready ∷ schedule) c pending (f ∷ fs)
    go out e (nothing none_ready) ih =
        idle ready schedule c pending (f ∷ fs) e s (λ positive. absurd (omega arith))
    go out e (some_bytes n some_n fits) ih =
        let settled = advance f fs s.part s.tail c n all s.holds s.joined some_n fits in
        proceed ready schedule c _ pending _ (f ∷ fs) e
          (omega (
            arith,
            ap length s.waiting,
            length-append s.tail (flatten fs),
            length-append (drop n s.tail) (flatten fs),
            length-drop n s.tail,
          ))
          settled (ih settled.rest _ _ settled.all settled.synced)

-- From a fresh connection, over a socket that holds whole packets with right size fields, `Parse`
-- returns without a store behind its buffer and without a failed assertion, whatever the lengths of
-- the reads: it has handed over the first packets, in order, each with zeros behind it, and holds
-- the front of the next with zeros behind it while the socket has the rest.
pub parse-Delivered :
    (schedule : List ℕ) (frames : List (List ℕ))
    → AllFrames frames
    → (r : Parsed) × (parse schedule fresh (flatten frames) ≡ some r) × Delivered frames r
parse-Delivered schedule frames all =
    let (r, parses, delivered, _) =
      parse-Outcome schedule frames fresh (flatten frames) all (fresh-Synced frames all) in
    (r, parses, delivered)

Synced-empty : (c : Connection) (frames : List (List ℕ)) → Synced c [] frames → frames ≡ []
Synced-empty c [] s = refl
Synced-empty c (f ∷ fs) s =
    absurd (omega (arith, s.unfinished, ap length s.waiting, length-append s.tail (flatten fs)))

Delivered-all :
    (frames : List (List ℕ)) (r : Parsed)
    → Delivered frames r
    → r.pending ≡ []
    → r.handled ≡ map padded frames
Delivered-all frames r d e =
    let none_left = Synced-empty r.connection d.rest (rw (← e) d.synced) in
    d.handled ∙ ap (map padded) (sym (append-nil d.done) ∙ rw (← none_left) d.split)

-- If a socket holds whole packets with right size fields, and each of at least as many calls of
-- `read` as there are bytes has something ready, `Parse` from a fresh connection returns, has handed
-- over all of the packets, in order, and leaves no byte in the socket.
pub parse_delivers_all :
    (schedule : List ℕ) (frames : List (List ℕ))
    → AllFrames frames
    → AllPositive schedule
    → length (flatten frames) ≤ length schedule
    → (r : Parsed) × (parse schedule fresh (flatten frames) ≡ some r)
      × (r.handled ≡ map padded frames)
      × (r.pending ≡ [])
parse_delivers_all schedule frames all positive enough =
    let (r, parses, delivered, drains) =
      parse-Outcome schedule frames fresh (flatten frames) all (fresh-Synced frames all) in
    let drained = length_zero r.pending (omega (arith, drains positive)) in
    (r, parses, Delivered-all frames r delivered drained, drained)

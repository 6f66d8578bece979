-- ===== src/BtFilter/Logger/Reader.antt =====
-- A reader of the listener's stream, written from the format: the length of what follows, a time of 8
-- bytes, the kind of the packet, and the packet.
use mathlib.Core.Path.{subst}
use mfi_wrapper.Prelude.{
  ℕ, zero, suc, ◌+◌, ◌-◌, ◌%◌, ◌^◌, ◌<◌, ◌≡◌, ◌≢◌, ◌==◌, sym, inl, inr, Bool-cases, refl, ap, ap₂,
  ◌∙◌, Bool, true, List, [], ◌∷◌, ◌++◌, append-nil, Option, arith, length, get_or, take, drop,
  take_all, take-length-append, drop-length-append,
}
use mfi_wrapper.Protocol.Wire.{le32, word}
use mfi_wrapper.Connection.RoundTrip.{word-le32}
use mfi_wrapper.BtFilter.Logger.{new_logger, Direction, to_radio, from_radio, kind, values, History}
use mfi_wrapper.BtFilter.Logger.Laws.{
  frame, frames, log_all, TakesAll, IsSized, AllSized, all_of, listener-HasFront,
}

-- The first packet of a stream, and what follows it.
abbrev pub first_entry : List ℕ → ℕ × List ℕ
first_entry s = (get_or s 12 0, take (word s - 9) (drop 13 s))

abbrev pub read_log : ℕ → List ℕ → List (ℕ × List ℕ)
read_log zero s = []
read_log (suc n) s = first_entry s ∷ read_log n (drop (word s - 9) (drop 13 s))

-- The kind of each packet, and its bytes without the first, which gave the kind.
abbrev entries : History → List (ℕ × List ℕ)
entries [] = []
entries ((dir, bytes) ∷ ps) = (kind dir (get_or bytes 0 0), drop 1 bytes) ∷ entries ps

-- The kinds of the format: 0 is a command, which goes to the radio and starts with 1; 1 is an event, which
-- comes from it and starts with 4; 2 and 3 are the rest of each direction.
abbrev pub IsKind : ℕ → Direction → ℕ → Type 0
IsKind zero dir first = (dir ≡ to_radio) × (first ≡ 1)
IsKind (suc zero) dir first = (dir ≡ from_radio) × (first ≡ 4)
IsKind (suc (suc zero)) dir first = (dir ≡ to_radio) × (first ≢ 1)
IsKind (suc (suc (suc zero))) dir first = (dir ≡ from_radio) × (first ≢ 4)
IsKind (suc (suc (suc (suc k)))) dir first = ⊥

-- Entries of just these packets, in order, with their kinds and the bytes behind the first.
abbrev pub AllRead : List (ℕ × List ℕ) → History → Type 0
AllRead [] [] = Unit
AllRead [] (p ∷ ps) = ⊥
AllRead (e ∷ es) [] = ⊥
AllRead ((k, body) ∷ es) ((dir, bytes) ∷ ps) =
    IsKind k dir (get_or bytes 0 0) × (body ≡ drop 1 bytes) × AllRead es ps

kind-IsKind : (dir : Direction) (first : ℕ) → IsKind (kind dir first) dir first
kind-IsKind to_radio first = elim (Bool-cases (first == 1)) [
  | inl e ↦ rw e (refl, ground (arith, e))
  | inr e ↦ rw e (refl, ground (arith, e))
]
kind-IsKind from_radio first = elim (Bool-cases (first == 4)) [
  | inl e ↦ rw e (refl, ground (arith, e))
  | inr e ↦ rw e (refl, ground (arith, e))
]

entries-AllRead : (ps : History) → AllRead (entries ps) ps
entries-AllRead [] = tt
entries-AllRead ((dir, bytes) ∷ ps) = (kind-IsKind dir (get_or bytes 0 0), refl, entries-AllRead ps)

head_of :
    (dir : Direction) (b : ℕ) (body rest : List ℕ)
    → IsSized (dir, b ∷ body)
    → frame (dir, b ∷ body) ++ rest
      ≡ le32 (length body + 9) ++ (le32 0 ++ (le32 0 ++ (kind dir b ∷ (body ++ rest))))
unfolding values le32
head_of dir b body rest h =
    ap₂ (λ x y. le32 x ++ (le32 0 ++ (le32 0 ++ (kind dir b ∷ (y ++ rest))))) (omega (arith, h.1))
      (append-nil _
        ∙ take_all ((suc (length body) + 2 ^ 32 - 1) % 2 ^ 32) body (omega (arith, h.1)))

reads_one :
    (n k : ℕ) (body rest : List ℕ)
    → let s = le32 (length body + 9) ++ (le32 0 ++ (le32 0 ++ (k ∷ (body ++ rest)))) in
      length body + 9 < 2 ^ 32 → read_log (suc n) s ≡ (k, body) ∷ read_log n rest
unfolding le32
reads_one n k body rest h =
    let s = le32 (length body + 9) ++ (le32 0 ++ (le32 0 ++ (k ∷ (body ++ rest)))) in
    let size : word s ≡ length body + 9 = word-le32 (length body + 9) _ h in
    let left : word s - 9 ≡ length body = omega (arith, size) in
    ap₂ (λ x y. (k, x) ∷ read_log n y)
      (ap (λ m. take m (body ++ rest)) left ∙ take-length-append body rest)
      (drop-length-append body rest (word s - 9) 0 (omega (arith, left)))

read-frames : (ps : History) → AllSized ps → read_log (length ps) (frames ps) ≡ entries ps
read-frames [] h = refl
read-frames ((dir, []) ∷ ps) h = absurd (omega (arith, h.0.0))
read-frames ((dir, b ∷ body) ∷ ps) h =
    ap (read_log (suc (length ps))) (head_of dir b body (frames ps) h.0)
    ∙ reads_one (length ps) (kind dir b) body (frames ps) (omega (arith, h.0.1))
    ∙ ap (λ es. (kind dir b, body) ∷ es) (read-frames ps h.1)

-- If each answer of the system's `write` is a failure or takes at least 2^32 bytes, and each packet
-- has at least one byte and fewer than 2^32 - 8, and the logger's socket is still open after a
-- history of packets, then a reader of the log's format finds in the stream just these packets in
-- order, each with its bytes behind the first and the format's kind: 0 for one to the radio that
-- starts with 1, 1 for one from it that starts with 4, and 2 and 3 for the others of these
-- directions.
pub log_reads_back :
    (has_target has_socket is_connected in_progress : Bool) (answers : List (Option ℕ))
    (ps : History)
    → TakesAll answers
    → AllSized ps
    → (log_all (new_logger has_target has_socket is_connected in_progress answers) ps).is_open
      ≡ true
    → AllRead
        (read_log
          (length ps)
          (log_all (new_logger has_target has_socket is_connected in_progress answers) ps).stream)
        ps
log_reads_back has_target has_socket is_connected in_progress answers ps takes n open_now =
    subst (λ es. AllRead es ps) (sym (read_all ∙ read-frames ps n)) (entries-AllRead ps)
  where
    read_all :
        read_log
          (length ps)
          (log_all (new_logger has_target has_socket is_connected in_progress answers) ps).stream
        ≡ read_log (length ps) (frames ps)
    read_all = ap (read_log (length ps)) (
        all_of (log_all (new_logger has_target has_socket is_connected in_progress answers) ps)
          (frames ps)
          (listener-HasFront has_target has_socket is_connected in_progress answers ps takes n)
          open_now)

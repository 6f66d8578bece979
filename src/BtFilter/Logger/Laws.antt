-- ===== src/BtFilter/Logger/Laws.antt =====
-- What the listener of PacketLogger.cpp gets, over failures of the socket.
use mathlib.Core.Path.{subst}
use mfi_wrapper.Prelude.{
  ℕ, suc, ◌+◌, ◌-◌, ◌%◌, ◌^◌, ◌≤◌, ◌<◌, ◌≡◌, refl, sym, ap, ◌∙◌, inl, inr, Bool, true, false, List,
  [], ◌∷◌, ◌++◌, append-nil, append_assoc, Option, none, some, arith, length, take_all, length-take,
  Bool-cases,
}
use mfi_wrapper.Protocol.Wire.{le32}
use mfi_wrapper.BtFilter.Logger.{
  PacketLogger, new_logger, write_value, write_values, Direction, values, log_packet, History,
}

-- The bytes of some values, of a packet and of a history.
abbrev pub joined : List (List ℕ) → List ℕ
joined [] = []
joined (v ∷ vs) = v ++ joined vs

abbrev pub frame : Direction × List ℕ → List ℕ
frame (dir, bytes) = joined (values dir bytes (length bytes))

abbrev pub frames : History → List ℕ
frames [] = []
frames (p ∷ ps) = frame p ++ frames ps

abbrev pub log_all : PacketLogger → History → PacketLogger
log_all l [] = l
log_all l ((dir, bytes) ∷ ps) = log_all (log_packet l dir bytes (length bytes)) ps

-- A system that takes the whole of what is written, or fails.
abbrev pub TakesAll : List (Option ℕ) → Type 0
TakesAll [] = Unit {0}
TakesAll (none ∷ rest) = TakesAll rest
TakesAll (some n ∷ rest) = (2 ^ 32 ≤ n) × TakesAll rest

-- The listener has a front of what was to be written, and all of it while the socket is open.
pub record HasFront (l : PacketLogger) (full : List ℕ) : Type 0 where
  pub missing : List ℕ
  pub front : l.stream ++ missing ≡ full
  pub complete : l.is_open ≡ true → missing ≡ []
  pub answers : TakesAll l.answers

pub all_of :
    (l : PacketLogger) (full : List ℕ) → HasFront l full → l.is_open ≡ true → l.stream ≡ full
all_of l full h open_now =
    sym (append-nil l.stream) ∙ ap (λ m. l.stream ++ m) (sym (h.complete open_now)) ∙ h.front

open_value :
    (stream : List ℕ) (answers : List (Option ℕ)) (v : List ℕ)
    → TakesAll answers
    → length v ≤ 2 ^ 32
    → HasFront
        (write_value (record { is_open = true; stream = stream; answers = answers }) v)
        (stream ++ v)
unfolding write_value
open_value stream [] v h n = record {
  missing = v;
  front = refl;
  complete = λ e. ground (arith, e);
  answers = tt;
}
open_value stream (none ∷ rest) v h n = record {
  missing = v;
  front = refl;
  complete = λ e. ground (arith, e);
  answers = h;
}
open_value stream (some m ∷ rest) v h n = record {
  missing = [];
  front = append-nil _ ∙ ap (λ x. stream ++ x) (take_all m v (omega (arith, n, h.0)));
  complete = λ e. refl;
  answers = h.1;
}

closed_value :
    (stream : List ℕ) (answers : List (Option ℕ)) (v full : List ℕ)
    → HasFront (record { is_open = false; stream = stream; answers = answers }) full
    → HasFront
        (write_value (record { is_open = false; stream = stream; answers = answers }) v)
        (full ++ v)
unfolding write_value
closed_value stream answers v full h = record {
  missing = h.missing ++ v;
  front = sym (append_assoc stream h.missing v) ∙ ap (λ x. x ++ v) h.front;
  complete = λ e. ground (arith, e);
  answers = h.answers;
}

either_value :
    (is_open : Bool) (stream : List ℕ) (answers : List (Option ℕ)) (v full : List ℕ)
    → length v ≤ 2 ^ 32
    → HasFront (record { is_open = is_open; stream = stream; answers = answers }) full
    → HasFront
        (write_value (record { is_open = is_open; stream = stream; answers = answers }) v)
        (full ++ v)
either_value true stream answers v full n h =
    let l : PacketLogger = record { is_open = true; stream = stream; answers = answers } in
    subst (λ x. HasFront (write_value l v) (x ++ v)) (all_of l full h refl)
      (open_value stream answers v h.answers n)
either_value false stream answers v full n h = closed_value stream answers v full h

abbrev AllShort : List (List ℕ) → Type 0
AllShort [] = Unit {0}
AllShort (v ∷ vs) = (length v ≤ 2 ^ 32) × AllShort vs

values_keep :
    (l : PacketLogger) (vs : List (List ℕ)) (full : List ℕ)
    → AllShort vs
    → HasFront l full
    → HasFront (write_values l vs) (full ++ joined vs)
unfolding write_values
values_keep l [] full n h = subst (HasFront l) (sym (append-nil full)) h
values_keep l (v ∷ vs) full n h =
    subst (HasFront (write_values l (v ∷ vs))) (append_assoc full v (joined vs)) (
      values_keep (write_value l v) vs (full ++ v) n.1
        (either_value l.is_open l.stream l.answers v full n.0 h))

skipped :
    (l : PacketLogger) (full more : List ℕ)
    → l.is_open ≡ false
    → HasFront l full
    → HasFront l (full ++ more)
skipped l full more closed h = record {
  missing = h.missing ++ more;
  front = sym (append_assoc l.stream h.missing more) ∙ ap (λ x. x ++ more) h.front;
  complete = λ e. ground (arith, e, closed);
  answers = h.answers;
}

-- A packet with its bytes, of a size that leaves room for the 8 of the head.
abbrev pub IsSized : Direction × List ℕ → Type 0
IsSized (dir, bytes) = (1 ≤ length bytes) × (length bytes + 8 < 2 ^ 32)

abbrev pub AllSized : History → Type 0
AllSized [] = Unit {0}
AllSized (p ∷ ps) = IsSized p × AllSized ps

body-length :
    (dir : Direction) (bytes : List ℕ)
    → IsSized (dir, bytes)
    → AllShort (values dir bytes (length bytes))
unfolding values le32
body-length dir [] h = absurd (omega (arith, h.0))
body-length dir (b ∷ bytes) h = (
  omega arith,
  (
    omega arith,
    (
      omega arith,
      (
        omega arith,
        (omega (arith, h.1, length-take ((suc (length bytes) + 2 ^ 32 - 1) % 2 ^ 32) bytes), tt),
      ),
    ),
  ),
)

packet_keeps :
    (l : PacketLogger) (dir : Direction) (bytes full : List ℕ)
    → IsSized (dir, bytes)
    → HasFront l full
    → HasFront (log_packet l dir bytes (length bytes)) (full ++ frame (dir, bytes))
unfolding log_packet
packet_keeps l dir bytes full n h = elim (Bool-cases l.is_open) [
  | inl e ↦ simp (log_packet, e) (values_keep l _ full (body-length dir bytes n) h)
  | inr e ↦ simp (log_packet, e) (skipped l full _ e h)
]

log_keeps :
    (l : PacketLogger) (ps : History) (full : List ℕ)
    → AllSized ps
    → HasFront l full
    → HasFront (log_all l ps) (full ++ frames ps)
log_keeps l [] full n h = subst (HasFront l) (sym (append-nil full)) h
log_keeps l ((dir, bytes) ∷ ps) full n h =
    let now = packet_keeps l dir bytes full n.0 h in
    subst (HasFront (log_all l ((dir, bytes) ∷ ps)))
      (append_assoc full (frame (dir, bytes)) (frames ps))
      (log_keeps (log_packet l dir bytes (length bytes)) ps (full ++ frame (dir, bytes)) n.1 now)

-- If each answer of the system's `write` is a failure or takes at least 2^32 bytes, and each packet
-- has at least one byte and fewer than 2^32 - 8, then after any history of packets the listener has
-- got a front of the records of these packets, and all of them if the socket is still open.
pub listener-HasFront :
    (has_target has_socket is_connected in_progress : Bool) (answers : List (Option ℕ))
    (ps : History)
    → TakesAll answers
    → AllSized ps
    → HasFront
        (log_all (new_logger has_target has_socket is_connected in_progress answers) ps)
        (frames ps)
unfolding new_logger
listener-HasFront has_target has_socket is_connected in_progress answers ps takes n =
    log_keeps (new_logger has_target has_socket is_connected in_progress answers) ps [] n
      (record { missing = []; front = refl; complete = λ e. refl; answers = takes })

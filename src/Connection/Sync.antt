-- ===== src/Connection/Sync.antt =====
-- The reader and the packets on the stream: what it holds is the front of the next packet.
use mfi_wrapper.Prelude.{
  ℕ, ◌+◌, ◌-◌, ◌%◌, ◌^◌, ◌≤◌, ◌<◌, min, ◌≡◌, refl, ap, ◌∙◌, List, [], ◌∷◌, ◌++◌, arith, length,
  take, drop, replicate, get_or, length-append, length-replicate, take-append_le, drop-append_le,
  drop-replicate, get_or-append_lt, take-length-append, drop-length-append, dec_lt, leb-false,
  lt→ltb, ltb-false, ==_false, ==_true,
}
use mathlib.Core.List.{flatten}
use mfi_wrapper.Protocol.{data_packet_size}
use mfi_wrapper.Protocol.Wire.{word, size_of}
use mfi_wrapper.Connection.Defs.{
  Connection, fresh, target_size, ReadResult, would_block, received, store, read, finish,
}

-- The bytes of a packet as the reader can take them: the size field gives their number, they fit
-- `MFiWDataPacket`, and the size's low byte alone is past the size field.
pub record IsFrame (f : List ℕ) : Type 0 where
  pub sized : size_of f ≡ length f
  pub whole : 12 ≤ length f
  pub fits : length f ≤ data_packet_size
  pub low_byte : 4 ≤ get_or f 0 0

abbrev pub AllFrames : List (List ℕ) → Type 0
AllFrames [] = Unit {0}
AllFrames (f ∷ fs) = IsFrame f × AllFrames fs

-- The buffer of a packet, zero behind it.
abbrev pub padded : List ℕ → List ℕ
padded f = f ++ replicate (data_packet_size - length f) 0

-- The reader holds the bytes of `part`, with zeros behind them.
pub record Holds (part : List ℕ) (c : Connection) : Type 0 where
  pub filled : c.packet ≡ padded part
  pub counted : c.position ≡ length part

-- The reader is inside the frame `part ++ tail`, and the socket has the rest.
pub record Inside (c : Connection) (pending : List ℕ) (f : List ℕ) (fs : List (List ℕ))
    : Type 0 where
  pub part : List ℕ
  pub tail : List ℕ
  pub holds : Holds part c
  pub joined : part ++ tail ≡ f
  pub unfinished : 0 < length tail
  pub waiting : pending ≡ tail ++ flatten fs

abbrev pub Synced : Connection → List ℕ → List (List ℕ) → Type 0
Synced c pending [] = Holds [] c × (pending ≡ [])
Synced c pending (f ∷ fs) = Inside c pending f fs

pub fresh-Holds : Holds [] fresh
fresh-Holds = record { filled = refl; counted = refl }

-- A fresh reader is synchronised with any packets that wait in the socket.
pub fresh-Synced : (fs : List (List ℕ)) → AllFrames fs → Synced fresh (flatten fs) fs
unfolding flatten
fresh-Synced [] all = (fresh-Holds, refl)
fresh-Synced (f ∷ fs) all = record {
  part = [];
  tail = f;
  holds = fresh-Holds;
  joined = refl;
  unfinished = omega (arith, all.0.whole);
  waiting = refl;
}

length-padded : (part : List ℕ) → length part ≤ data_packet_size → length (padded part) ≡ 276
length-padded part h = omega (
  arith,
  length-append part (replicate (data_packet_size - length part) 0),
  length-replicate {A = ℕ} (data_packet_size - length part) 0,
)

-- The size field depends on its first four bytes only.
word-append : (xs ys : List ℕ) → 4 ≤ length xs → word (xs ++ ys) ≡ word xs
unfolding word
word-append xs ys h = omega (
  arith,
  get_or-append_lt {0} 0 xs ys 0 (omega arith),
  get_or-append_lt {0} 1 xs ys 0 (omega arith),
  get_or-append_lt {0} 2 xs ys 0 (omega arith),
  get_or-append_lt {0} 3 xs ys 0 (omega arith),
)

first-le-word : (xs : List ℕ) → get_or xs 0 0 ≤ word xs
unfolding word
first-le-word xs = omega arith

-- Storing the next bytes of a frame extends what is held.
pub store-Holds :
    (part chunk : List ℕ) (c : Connection)
    → Holds part c
    → length part + length chunk ≤ data_packet_size
    → Holds (part ++ chunk) (store c chunk)
unfolding store
store-Holds part chunk c h fit = record {
  filled = rw (h.filled, h.counted, take-length-append part zeros, back);
  counted = omega (arith, h.counted, length-append part chunk);
}
  where
    zeros : List ℕ
    zeros = replicate (data_packet_size - length part) 0

    left_over : ℕ
    left_over = data_packet_size - length (part ++ chunk)

    split : data_packet_size - length part ≡ length chunk + left_over
    split = omega (arith, length-append part chunk)

    back : drop (length part + length chunk) (part ++ zeros) ≡ replicate left_over 0
    back =
        drop-length-append part zeros _ (length chunk) refl
        ∙ rw split (drop-replicate (length chunk) left_over 0)

-- Inside a frame the size field that the reader sees is above its position.
size_above :
    (part tail : List ℕ)
    → IsFrame (part ++ tail)
    → 0 < length part
    → 0 < length tail
    → length part < word (padded part)
unfolding size_of
size_above part tail frame begun more = elim (dec_lt (length part) 4) [
  | yes early ↦ omega (
    arith,
    first-le-word (padded part),
    get_or-append_lt 0 part (replicate (data_packet_size - length part) 0) 0 begun,
    get_or-append_lt 0 part tail 0 begun,
    frame.low_byte,
  )
  | no late ↦ omega (
    arith,
    word-append part (replicate (data_packet_size - length part) 0) (omega arith),
    word-append part tail (omega arith),
    length-append part tail,
    frame.sized,
  )
]

-- Inside a frame the size is not reached: not by the low byte of a size in part, nor by a part of the
-- packet.
pub finish_inside :
    (part tail : List ℕ) (c : Connection)
    → Holds part c
    → IsFrame (part ++ tail)
    → 0 < length part
    → 0 < length tail
    → finish c ≡ (c, [])
unfolding finish size_of
finish_inside part tail c h frame begun more = rw (leb-false (size_of c.packet) c.position above)
  where
    above : c.position < size_of c.packet
    above = rw (h.filled, h.counted) (size_above part tail frame begun more)

-- At the end of a frame the packet is handled, and the reader starts afresh.
pub finish_end :
    (f : List ℕ) (c : Connection) → Holds f c → IsFrame f → finish c ≡ (fresh, padded f ∷ [])
unfolding finish size_of
finish_end f c h frame =
    ground (arith, h.filled, word-append f (replicate (276 - length f) 0), frame.sized, frame.whole)

-- How many bytes `read` takes: what is asked for lies in the rest of the frame.
wanted_inside :
    (part tail : List ℕ) (c : Connection)
    → Holds part c
    → IsFrame (part ++ tail)
    → 0 < length tail
    → let wanted = (target_size c + 2 ^ 32 - c.position) % 2 ^ 32 in
      (0 < wanted) × (wanted ≤ length tail) × (c.position + wanted ≡ target_size c)
unfolding target_size size_of
wanted_inside part tail c h frame more = elim (dec_lt (length part) 4) [
  | yes early ↦
      rw (h.counted, lt→ltb _ _ early) (omega (arith, length-append part tail, frame.whole))
  | no late ↦
      rw (h.counted, ltb-false (length part) 4 (omega arith), h.filled)
        (omega (
          arith,
          word-append part (replicate (data_packet_size - length part) 0) (omega arith),
          word-append part tail (omega arith),
          length-append part tail,
          frame.sized,
          frame.fits,
        ))
]

-- What a call of `read` does inside a frame: nothing, or it takes `n` of the frame's bytes.
pub data Taken (ready : ℕ) (c : Connection) (tail rest : List ℕ) : ReadResult → Type 0 where
  nothing : ready ≡ 0 → Taken ready c tail rest would_block
  some_bytes :
      (n : ℕ)
      → 0 < n
      → n ≤ length tail
      → Taken ready c tail rest (received (store c (take n tail)) (drop n tail ++ rest))

pub read-Taken :
    (ready : ℕ) (part tail rest : List ℕ) (c : Connection)
    → Holds part c
    → IsFrame (part ++ tail)
    → 0 < length tail
    → Taken ready c tail rest (read ready c (tail ++ rest))
unfolding read
read-Taken ready part tail rest c h frame more = elim (dec_lt 0 n) [
  | no stuck ↦
      rw (==_true n 0 (omega arith), read)
        (nothing (omega (arith, length-append tail rest, wanted_inside part tail c h frame more)))
  | yes moves ↦
      rw
        (
          ==_false n 0 (omega arith),
          ltb-false (length c.packet) (c.position + n) room,
          ltb-false (target_size c) (c.position + n) asserted,
          read,
        )
        (rw (take-append_le n tail rest fits, drop-append_le n tail rest fits)
          (some_bytes n moves fits))
]
  where
    n : ℕ
    n = min ready (min ((target_size c + 2 ^ 32 - c.position) % 2 ^ 32) (length (tail ++ rest)))

    fits : n ≤ length tail
    fits = omega (arith, wanted_inside part tail c h frame more)

    asserted : c.position + n ≤ target_size c
    asserted = omega (arith, wanted_inside part tail c h frame more)

    room : c.position + n ≤ length c.packet
    room = omega (
      arith,
      ap length h.filled,
      length-padded part (omega (arith, frame.fits, length-append part tail)),
      h.counted,
      frame.fits,
      length-append part tail,
      fits,
    )

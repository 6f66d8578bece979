-- ===== src/System/Queue.antt =====
-- What a queue of packets does to the handles that the frontend has.
use mfi_wrapper.Prelude.{
  ℕ, ◌+◌, ◌≡◌, ◌≢◌, refl, ap, inl, inr, List, [], ◌∷◌, ◌++◌, Option, some, arith, ◌==◌,
  if◌then◌else◌, ◌>>=◌, Option-cases, Bool-cases, unsome, none_not,
}
use mfi_wrapper.Protocol.{
  DataPacket, connect, disconnect, input_state, set_player_index, pause_pressed,
}
use mfi_wrapper.Frontend.Manager.Laws.{follow, without}

unfoldable pub follow_all : List DataPacket → List ℕ → Option (List ℕ)
follow_all [] hs = some hs
follow_all (p ∷ ps) hs = do hs' ← follow p hs; follow_all ps hs'

pub follow_all-append :
    (ps qs : List DataPacket) (hs hs' : List ℕ)
    → follow_all ps hs ≡ some hs'
    → follow_all (ps ++ qs) hs ≡ follow_all qs hs'
unfolding follow_all
follow_all-append [] qs hs hs' e = ap (follow_all qs) (unsome e)
follow_all-append (p ∷ ps) qs hs hs' e = elim (Option-cases (follow p hs)) [
  | inl missing ↦ absurd (none_not (rw (follow_all, missing) at e))
  | inr (mid, found) ↦
      rw (follow_all, found) (follow_all-append ps qs mid hs' (rw (follow_all, found) at e))
]

-- How often a handle stands in a list.
abbrev pub count : ℕ → List ℕ → ℕ
count k [] = 0
count k (h ∷ hs) = (if h == k then 1 else 0) + count k hs

pub count-append :
    (k : ℕ) (hs : List ℕ) (h : ℕ) → count k (hs ++ h ∷ []) ≡ count k hs + (if h == k then 1 else 0)
count-append k [] h = ground arith
count-append k (x ∷ hs) h = ground (arith, count-append k hs h)

-- A handle that is there can be taken out, once.
pub count-without :
    (handle : ℕ) (hs : List ℕ)
    → count handle hs ≢ 0
    → (hs' : List ℕ) × (without handle hs ≡ some hs')
      × ((k : ℕ) → count k hs ≡ count k hs' + (if handle == k then 1 else 0))
unfolding without
count-without handle [] h = absurd (h refl)
count-without handle (x ∷ hs) h = elim (Bool-cases (x == handle)) [
  | inl e ↦ (hs, simp (without, e), λ k. ground (arith, e))
  | inr e ↦
      let (hs', found, counts) =
        count-without handle hs (λ zero_there. h (ground (arith, e, zero_there))) in
      (x ∷ hs', rw (e, found), λ k. omega (arith, counts k))
]

-- The packets of a controller that stays connected.
abbrev pub IsInput : DataPacket → Type 0
IsInput (connect h p) = ⊥
IsInput (disconnect h) = ⊥
IsInput (set_player_index h i) = ⊥
IsInput _ = Unit {0}

abbrev pub AllInput : List DataPacket → Type 0
AllInput [] = Unit {0}
AllInput (p ∷ ps) = IsInput p × AllInput ps

pub AllInput-append : (ps qs : List DataPacket) → AllInput ps → AllInput qs → AllInput (ps ++ qs)
AllInput-append [] qs h k = k
AllInput-append (p ∷ ps) qs h k = (h.0, AllInput-append ps qs h.1 k)

pub follow_all-AllInput :
    (ps : List DataPacket) (hs : List ℕ) → AllInput ps → follow_all ps hs ≡ some hs
unfolding follow_all follow
follow_all-AllInput [] hs h = refl
follow_all-AllInput (connect k p ∷ ps) hs h = absurd h.0
follow_all-AllInput (disconnect k ∷ ps) hs h = absurd h.0
follow_all-AllInput (input_state k s ∷ ps) hs h = follow_all-AllInput ps hs h.1
follow_all-AllInput (set_player_index k i ∷ ps) hs h = absurd h.0
follow_all-AllInput (pause_pressed k ∷ ps) hs h = follow_all-AllInput ps hs h.1

-- No connection under the handle 0, which stands for no controller.
abbrev pub IsSound : DataPacket → Type 0
IsSound (connect h p) = h ≢ 0
IsSound _ = Unit {0}

abbrev pub AllSound : List DataPacket → Type 0
AllSound [] = Unit {0}
AllSound (p ∷ ps) = IsSound p × AllSound ps

pub AllSound-append : (ps qs : List DataPacket) → AllSound ps → AllSound qs → AllSound (ps ++ qs)
AllSound-append [] qs h k = k
AllSound-append (p ∷ ps) qs h k = (h.0, AllSound-append ps qs h.1 k)

pub AllInput-AllSound : (ps : List DataPacket) → AllInput ps → AllSound ps
AllInput-AllSound [] h = tt
AllInput-AllSound (connect k p ∷ ps) h = absurd h.0
AllInput-AllSound (disconnect k ∷ ps) h = (tt, AllInput-AllSound ps h.1)
AllInput-AllSound (input_state k s ∷ ps) h = (tt, AllInput-AllSound ps h.1)
AllInput-AllSound (set_player_index k i ∷ ps) h = (tt, AllInput-AllSound ps h.1)
AllInput-AllSound (pause_pressed k ∷ ps) h = (tt, AllInput-AllSound ps h.1)

-- The packets to the backend: player indices, for handles of controllers.
abbrev pub IsIndex : DataPacket → Type 0
IsIndex (set_player_index h i) = h ≢ 0
IsIndex _ = ⊥

abbrev pub AllIndices : List DataPacket → Type 0
AllIndices [] = Unit {0}
AllIndices (p ∷ ps) = IsIndex p × AllIndices ps

pub AllIndices-append :
    (ps qs : List DataPacket) → AllIndices ps → AllIndices qs → AllIndices (ps ++ qs)
AllIndices-append [] qs h k = k
AllIndices-append (p ∷ ps) qs h k = (h.0, AllIndices-append ps qs h.1 k)

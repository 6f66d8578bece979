-- ===== src/System/Drain.antt =====
-- Turns of the frontend while packets wait for it.
use mfi_wrapper.Prelude.{
  ℕ, ◌+◌, ◌≤◌, suc, zero, ◌≡◌, refl, sym, ap, ◌∙◌, inl, inr, Bool, List, [], ◌∷◌, ◌++◌, Option,
  none, some, length, ◌>>=◌, arith, Option-cases, List-cases, unsome, none_not, length_zero,
}
use mfi_wrapper.Protocol.{DataPacket, set_player_index_size}
use mfi_wrapper.HidPad.Float.{FloatOps, FloatLaws}
use mfi_wrapper.Frontend.Manager.{dispatch}
use mfi_wrapper.System.{System, frontend_receives, deliver_to_frontend}
use mfi_wrapper.System.Room.{HasRoom, HasAnswerRoom, waiting, waiting-append, dispatch-waiting}
use mfi_wrapper.System.Safety.{
  Reachable, frontend_turn, step, step-handled, Reachable-HasRoom, no_step_fails, Shows, idle-Shows,
}

bind_some : {A : Type 0} (o : Option A) → (o >>= some) ≡ o
bind_some none = refl
bind_some (some a) = refl

module _ (F : FloatOps) where
  open F use {Float}

  turn_takes :
      (s s' : System Float) (p : DataPacket) (rest : List DataPacket)
      → s.to_frontend ≡ p ∷ rest
      → deliver_to_frontend F s ≡ some s'
      → (s'.to_frontend ≡ rest)
        × (s'.backend ≡ s.backend)
        × (waiting s'.to_backend ≤ waiting s.to_backend + set_player_index_size)
  unfolding deliver_to_frontend frontend_receives
  turn_takes s s' p rest waits steps =
      let turn : deliver_to_frontend F s ≡ frontend_receives F p rest s =
        simp (deliver_to_frontend, waits) in
      let done = sym turn ∙ steps in
      elim (Option-cases (dispatch s.frontend (some p))) [
        | inl raised ↦ absurd (none_not (rw (frontend_receives, raised) at done))
        | inr (r, returns) ↦
            let same = unsome (rw (frontend_receives, returns) at done) in
            let back = ap (λ x. waiting x.to_backend) same in
            (
              ap (λ x. x.to_frontend) (sym same),
              ap (λ x. x.backend) (sym same),
              omega (
                arith,
                back,
                waiting-append s.to_backend r.sent,
                dispatch-waiting s.frontend p r returns,
              ),
            )
      ]

  module _ (ios : Bool) (room : ℕ) where
    -- Turns of the frontend, one after the other.
    abbrev pub turns : ℕ → System Float → Option (System Float)
    turns zero s = some s
    turns (suc n) s = step F ios room frontend_turn s >>= turns n

    -- Turns, and one more.
    pub turns-suc :
        (n : ℕ) (s t : System Float)
        → turns n s ≡ some t
        → turns (suc n) s ≡ step F ios room frontend_turn t
    turns-suc zero s t e =
        bind_some (step F ios room frontend_turn s) ∙ ap (step F ios room frontend_turn) (unsome e)
    turns-suc (suc n) s t e = elim (Option-cases (step F ios room frontend_turn s)) [
      | inl fails ↦ absurd (none_not (rw fails at e))
      | inr (u, steps) ↦ rw steps (turns-suc n u t (rw steps at e))
    ]

    module _ (L : FloatLaws F) where
      -- One turn, where a packet waits and there is room for the answers.
      pub one_turn :
          (n : ℕ) (s : System Float) (p : DataPacket) (rest : List DataPacket)
          → Reachable F ios room s
          → HasAnswerRoom room (suc n) s
          → s.to_frontend ≡ p ∷ rest
          → (t : System Float) × (step F ios room frontend_turn s ≡ some t)
            × Reachable F ios room t
            × (t.to_frontend ≡ rest)
            × (t.backend ≡ s.backend)
            × HasAnswerRoom room n t
      one_turn n s p rest before enough waits =
          let (front, _) = Reachable-HasRoom F ios room s before in
          let shorter = ap waiting waits in
          let room_for : (u : System Float) → deliver_to_frontend F s ≡ some u → HasRoom room u =
            λ u e.
              let (left, _, little) = turn_takes s u p rest waits e in
              (omega (arith, front, shorter, ap waiting left), omega (arith, little, enough)) in
          let (t, steps, after) =
            no_step_fails F ios room L frontend_turn s before (tt, room_for) in
          let (left, same, little) =
            turn_takes s t p rest waits (step-handled F ios room frontend_turn s t steps).0 in
          (t, steps, after, left, same, omega (arith, little, enough))

      -- Turns up to the last packet.
      pub up_to_last :
          (q : List DataPacket) (p : DataPacket) (s : System Float)
          → Reachable F ios room s
          → HasAnswerRoom room (suc (length q)) s
          → s.to_frontend ≡ q ++ p ∷ []
          → (t : System Float) × (turns (length q) s ≡ some t)
            × Reachable F ios room t
            × (t.to_frontend ≡ p ∷ [])
            × (t.backend ≡ s.backend)
            × HasAnswerRoom room 1 t
      up_to_last [] p s before enough waits = (s, refl, before, waits, refl, enough)
      up_to_last (x ∷ q) p s before enough waits =
          let (mid, steps, after, left, same, left_room) =
            one_turn (suc (length q)) s x (q ++ p ∷ []) before enough waits in
          let (t, more, there, last, kept, last_room) = up_to_last q p mid after left_room left in
          (t, rw steps more, there, last, kept ∙ same, last_room)

      abbrev pub Drained : ℕ → System Float → Type 0
      Drained n s =
          (s' : System Float) × (turns n s ≡ some s')
          × (s'.to_frontend ≡ [])
          × (s'.backend ≡ s.backend)
          × Shows F ios room L s'

      -- Under the laws assumed of `float`, and for sockets whose buffers hold any fixed number of
      -- bytes: from every state that steps lead to, if the buffer of the backend's end has room for
      -- a player index in answer to each packet that waits for the frontend, as many turns of the
      -- frontend as packets wait all succeed, empty the queue and leave the registry; then the
      -- frontend has one controller for each handle that stands for a controller in the registry,
      -- and no other.
      pub frontend_catches_up :
          (n : ℕ) (s : System Float)
          → Reachable F ios room s
          → length s.to_frontend ≡ n
          → HasAnswerRoom room n s
          → Drained n s
      frontend_catches_up zero s before waits enough =
          let empty = length_zero s.to_frontend waits in
          (s, refl, empty, refl, idle-Shows F ios room L s before empty)
      frontend_catches_up (suc n) s before count enough = elim (List-cases s.to_frontend) [
        | inl empty ↦ absurd (omega (arith, count, ap length empty))
        | inr (p, rest, waits) ↦
            let (mid, steps, after, left, same, left_room) =
              one_turn n s p rest before enough waits in
            let count_rest = ap length waits in
            let (s', more, empty, backend, shows) =
              frontend_catches_up n mid after (ap length left ∙ omega (arith, count, count_rest))
                left_room in
            (s', rw steps more, empty, backend ∙ same, shows)
      ]

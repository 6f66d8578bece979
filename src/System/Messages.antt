-- ===== src/System/Messages.antt =====
-- The steps that take a packet from a queue, and the application's.
use mathlib.Core.Path.{subst}
use mfi_wrapper.Prelude.{
  ℕ, ◌≡◌, ◌≢◌, sym, ap, ◌∙◌, inl, inr, List, ◌∷◌, ◌++◌, Option, some, arith, Option-cases,
  List-cases, none_not,
}
use mfi_wrapper.Prelude.Int.{ℤ}
use mfi_wrapper.Protocol.{
  DataPacket, connect, disconnect, input_state, set_player_index, pause_pressed,
}
use mfi_wrapper.HidPad.Float.{FloatOps, FloatLaws}
use mfi_wrapper.Frontend.Manager.{
  Frontend, dispatch, set_controller_index, indexed, set_player_index_of,
}
use mfi_wrapper.Frontend.Manager.Laws.{
  follow, handles_of, with_array, answer, dispatch-Follows, handles_of-indexed,
}
use mfi_wrapper.System.{System, frontend_receives, deliver_to_frontend, application_sets_index}
use mfi_wrapper.System.Queue.{follow_all, IsSound, AllIndices, AllIndices-append}
use mfi_wrapper.System.Invariant.{IsSystem}

set_controller_index-AllIndices :
    (f : Frontend) (handle : ℕ) (i : ℤ) → handle ≢ 0 → AllIndices (set_controller_index f handle i)
unfolding set_controller_index
set_controller_index-AllIndices f handle i h = ground (arith, h)

answer-AllIndices : (f : Frontend) (p : DataPacket) → IsSound p → AllIndices (answer f p)
unfolding answer
answer-AllIndices f (connect handle p) h = set_controller_index-AllIndices f handle _ h
answer-AllIndices f (disconnect handle) h = tt
answer-AllIndices f (input_state handle s) h = tt
answer-AllIndices f (set_player_index handle i) h = tt
answer-AllIndices f (pause_pressed handle) h = tt

module _ (F : FloatOps) (L : FloatLaws F) where
  open F use {Float}

  abbrev pub Steps : Option (System Float) → Type 0
  Steps o = (s : System Float) × (o ≡ some s) × IsSystem F L s

  receives :
      (p : DataPacket) (rest : List DataPacket) (s : System Float)
      → IsSystem F L s
      → s.to_frontend ≡ p ∷ rest
      → Steps (frontend_receives F p rest s)
  unfolding frontend_receives follow_all
  receives p rest s h waits =
      let shown = h.shown in
      let replays = rw waits at shown.replays in
      let sound = rw waits at shown.sound in
      elim (Option-cases (follow p (handles_of shown.listed))) [
        | inl missing ↦ absurd (none_not (rw missing at replays))
        | inr (hs, found) ↦
            let (r, cs', returns, array, same, sent) =
              dispatch-Follows s.frontend shown.listed p hs found in
            let returns' = ap (λ f. dispatch f (some p)) shown.array ∙ returns in
            let s' : System Float = record s {
              to_frontend = rest;
              to_backend = s.to_backend ++ r.sent;
              frontend = r.frontend;
            } in
            (
              s',
              rw returns',
              record {
                linked = h.linked;
                shown = record {
                  listed = cs';
                  array = array ∙ ap (λ f. with_array f cs') (sym array);
                  at_end = shown.at_end;
                  replays = ap (follow_all rest) same ∙ rw found at replays;
                  counts = shown.counts;
                  sound = sound.1;
                };
                indices =
                    AllIndices-append s.to_backend r.sent h.indices
                      (subst AllIndices (sym sent) (answer-AllIndices s.frontend p sound.0));
              },
            )
      ]

  pub frontend_step : (s : System Float) → IsSystem F L s → Steps (deliver_to_frontend F s)
  unfolding deliver_to_frontend
  frontend_step s h = elim (List-cases s.to_frontend) [
    | inl empty ↦ (s, simp (deliver_to_frontend, empty), h)
    | inr (p, rest, waits) ↦
        let (s', steps, good) = receives p rest s h waits in
        let turn : deliver_to_frontend F s ≡ frontend_receives F p rest s =
          simp (deliver_to_frontend, waits) in
        (s', turn ∙ steps, good)
  ]

  pub application_step :
      (handle : ℕ) (i : ℤ) (s : System Float)
      → handle ≢ 0
      → IsSystem F L s
      → IsSystem F L (application_sets_index F handle i s)
  unfolding application_sets_index set_player_index_of
  application_step handle i s k h =
      let shown = h.shown in
      record {
        linked = h.linked;
        shown = record {
          listed = indexed handle i shown.listed;
          array = ap (λ f. set_player_index_of f handle i) shown.array;
          at_end = shown.at_end;
          replays =
              ap (follow_all s.to_frontend) (handles_of-indexed handle i shown.listed)
              ∙ shown.replays;
          counts = shown.counts;
          sound = shown.sound;
        };
        indices =
            AllIndices-append s.to_backend _ h.indices
              (set_controller_index-AllIndices s.frontend handle i k);
      }

-- ===== src/HidPad/Quiet.antt =====
-- Calls other than FinalizeConnection.
use mfi_wrapper.Prelude.{Bool, List, [], ◌∷◌, ◌++◌, arith}
use mfi_wrapper.Protocol.{InputState}
use mfi_wrapper.HidPad.Effect.{Effect, finalize_connection}
use mfi_wrapper.HidPad.Pause.{end_effects}

-- Any call but FinalizeConnection.
abbrev pub IsQuiet : {Float : Type 0} → Effect Float → Type 0
IsQuiet finalize_connection = ⊥
IsQuiet _ = Unit {0}

abbrev pub AllQuiet : {Float : Type 0} → List (Effect Float) → Type 0
AllQuiet [] = Unit {0}
AllQuiet (e ∷ es) = IsQuiet e × AllQuiet es

pub AllQuiet-append :
    {Float : Type 0} (xs ys : List (Effect Float)) → AllQuiet xs → AllQuiet ys → AllQuiet (xs ++ ys)
AllQuiet-append [] ys h k = k
AllQuiet-append (x ∷ xs) ys h k = (h.0, AllQuiet-append xs ys h.1 k)

pub end_effects-AllQuiet :
    {Float : Type 0} (held down : Bool) (i : InputState Float) → AllQuiet (end_effects held down i)
end_effects-AllQuiet held down i = ground arith

-- ===== src/Witnesses/Listener.antt =====
-- Two packets that are logged.
use mfi_wrapper.Prelude.{ℕ, ◌^◌, refl, true, false, List, [], ◌∷◌, Option, some, arith, replicate}
use mfi_wrapper.BtFilter.Logger.{
  new_logger, to_radio, from_radio, values, write_value, write_values, log_packet, History,
}
use mfi_wrapper.BtFilter.Logger.Laws.{log_all}
use mfi_wrapper.BtFilter.Logger.Reader.{AllRead, read_log, log_reads_back}

-- A command and an event.
abbrev packets : History
packets = (to_radio, 1 ∷ 3 ∷ 12 ∷ 0 ∷ []) ∷ (from_radio, 4 ∷ 14 ∷ 0 ∷ []) ∷ []

abbrev willing : List (Option ℕ)
willing = replicate 10 (some (2 ^ 32))

log_reads_back_example :
    AllRead (read_log 2 (log_all (new_logger true true false true willing) packets).stream) packets
unfolding new_logger log_packet write_values write_value values
log_reads_back_example =
    log_reads_back true true false true willing packets (ground arith) (ground arith) refl

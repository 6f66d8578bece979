-- ===== src/Log.antt =====
-- src/log.h: the logger that every file of the program has. Texts are bytes; what the system's log does with
-- a message is its matter.
use mfi_wrapper.Prelude.{ℕ, List, [], ◌∷◌, ◌++◌, take, ltb, if◌then◌else◌}
use mfi_wrapper.Text.{codes}

pub record Logger : Type 0 where
  pub header : List ℕ

-- The four methods, which LOG_LEVEL selects.
pub data Level : Type 0 where
  error warning notice verbose : Level

abbrev pub threshold : Level → ℕ
threshold error = 0
threshold warning = 1
threshold notice = 2
threshold verbose = 3

-- `(MFiW: %s) ` with the header.
unfoldable pub prefix : Logger → List ℕ
prefix l = codes "(MFiW: " ++ (l.header ++ codes ") ")

-- snprintf into a buffer of 1024 bytes.
unfoldable pub buffer : Logger → List ℕ → List ℕ
unfolding prefix
buffer l message = take 1023 (prefix l ++ message)

-- The calls of the system's log: a message that every user may read, its text as a format with the arguments
-- that DoPrint is given, at the level of a notice.
pub data AslCall {ℓ} (Arg : Type ℓ) : Type ℓ where
  asl_new asl_free : AslCall Arg
  asl_set_read_uid : List ℕ → AslCall Arg
  asl_vlog_notice : List ℕ → List Arg → AslCall Arg

module _ {Arg : Type 0} where
  -- DoPrint
  unfoldable pub do_print : Logger → List ℕ → List Arg → List (AslCall Arg)
  unfolding buffer
  do_print l message args =
      asl_new
      ∷ asl_set_read_uid (codes "-1")
      ∷ asl_vlog_notice (buffer l message) args
      ∷ asl_free
      ∷ []

  -- Error, Warning, Notice and Verbose in a build with a LOG_LEVEL.
  unfoldable pub print : ℕ → Level → Logger → List ℕ → List Arg → List (AslCall Arg)
  print log_level level l message args =
      if ltb (threshold level) log_level then do_print l message args else []

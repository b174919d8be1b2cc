-- ===== src/Status.antt =====
-- The codes of include/machine.h that every read and write answers with, and the states of a
-- descriptor's two sides.
use bingewatch.Prelude.{Bool, true, false}

-- `enum io_status`; `IO_IMPL` is used by no code of the library.
pub data Status : Type 0 where
  error success complete nodata databreak continue break : Status

-- `ret < IO_SUCCESS`
abbrev pub is_error : Status → Bool
is_error Status.error = true
is_error _ = false

abbrev pub is_complete : Status → Bool
is_complete Status.complete = true
is_complete _ = false

-- `enum io_desc_state_e`
pub data DescState : Type 0 where
  enabled disabling disabled stopped failed : DescState

-- `io_block_e`
pub data Blocking : Type 0 where
  no_block block : Blocking

-- ===== src/Scylla/Driver.antt =====
-- What src/ScyllaDBManager.h uses of the driver, and the handles that it takes from it.
use wsgateway.Prelude.{List, Option, Bytes}

-- A row by its columns; a column that holds null is missing.
abbrev pub Row : Type 0
Row = List (Bytes × Bytes)

-- `cass_session_execute`: the session behind the statement, and its rows, or `none` where the
-- future's error code is not CASS_OK.
pub record Driver : Type 1 where
  pub State : Type 0
  pub execute : Bytes → State → State × Option (List Row)

-- The handles that the program has to free.
pub data Handle : Type 0 where
  statement future result iterator : Handle

pub data Call : Type 0 where
  acquire release : Handle → Call

-- A method's run: the session behind it, the driver's calls in their order, and its value.
pub record Run (S : Type 0) (A : Type 0) : Type 0 where
  pub session : S
  pub calls : List Call
  pub value : A

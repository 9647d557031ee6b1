-- ===== src/Log.antt =====
-- src/utils/log.cpp: the lines that go to the standard output.
use cppsong.Base.{Bool, ◌++◌, Bytes, Option, none, some, if◌then◌else◌}
use cppsong.Base.Text.{codes}

-- A `boost::system::system_error`, of which it is known whether its code is `operation_aborted`,
-- with the text of the code; or another exception with its text.
pub data Exception : Type 0 where
  system_error : Bool → Bytes → Exception
  other_error : Bytes → Exception

-- The line without its end.
abbrev pub log : Bytes → Bytes → Bytes
log title content = codes "[" ++ title ++ codes "] " ++ content

-- An operation that was cancelled is passed over.
abbrev pub log_error : Bytes → Exception → Option Bytes
log_error message (system_error aborted text) =
    if aborted then none else some (log (codes "error") (message ++ codes " " ++ text))
log_error message (other_error text) = some (log (codes "error") (message ++ codes " " ++ text))

-- ===== src/Os.antt =====
-- What the programs ask of the kernel and the C library. Each answer may depend on what was done
-- before, so that an `Os` is any environment; what the programs change is kept in a trace.
use monoimage.Prelude.{ℕ, Bool, Option, List, Bytes}

-- What a program did to the world outside.
pub data Event : Type 0 where
  -- a child process was run to its end: the binary and its arguments
  ran : Bytes → List Bytes → Event
  -- a file was opened for writing, filled and closed
  wrote : Bytes → Bytes → Event
  renamed : Bytes → Bytes → Event
  -- mount(device, directory) was called
  mount_called : Bytes → Bytes → Event
  -- the program replaced itself by execlp
  replaced : Bytes → List Bytes → Event

-- The newest event stands first.
abbrev pub Trace : Type 0
Trace = List Event

-- How fork, execvp and waitpid end. A child that cannot run the binary exits with 1.
pub data ChildStatus : Type 0 where
  fork_failed : ChildStatus
  wait_failed : ChildStatus
  exited : ℕ → ChildStatus
  signalled : ChildStatus

pub record Os : Type 0 where
  pub child : Trace → Bytes → List Bytes → ChildStatus
  -- does execlp succeed, so that it does not return?
  pub exec_ok : Trace → Bytes → List Bytes → Bool
  pub stat_ok : Trace → Bytes → Bool
  pub fopen_write_ok : Trace → Bytes → Bool
  pub rename_ok : Trace → Bytes → Bytes → Bool
  -- the text of a file that is read, or a failure to open it
  pub read_file : Trace → Bytes → Option Bytes
  -- the text that strftime gives for the time of day
  pub time_text : Trace → Bytes
  -- what an array on the stack holds before it is written
  pub uninitialised : Bytes

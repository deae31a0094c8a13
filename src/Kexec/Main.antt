-- ===== src/Kexec/Main.antt =====
-- kexec-tools/kexec/kexec.c: `main`, its options, and the order of the actions; `k_unload`,
-- `my_shutdown` and `my_exec` are one step each.
pub mod Modes
use monoimage.Prelude.{
  ℕ, zero, suc, Bool, true, false, ◌&&◌, Option, none, some, List, [], ◌∷◌, ◌++◌, if◌then◌else◌,
  Bytes,
}
use monoimage.Kexec.{ulong_max, Die}
use monoimage.Kexec.Load.{LoadEnd, refused, submitted, exited, never, Submission}

-- One result of getopt_long; the number of --mem-min and --mem-max is `none` where it is followed by
-- other text.
pub data KexecOpt : Type 0 where
  help : KexecOpt
  version : KexecOpt
  no_ifdown : KexecOpt
  force : KexecOpt
  load : KexecOpt
  unload : KexecOpt
  exec : KexecOpt
  type_is : Bytes → KexecOpt
  panic : KexecOpt
  mem_min : Option ℕ → KexecOpt
  mem_max : Option ℕ → KexecOpt
  other : KexecOpt

pub record Flags : Type 0 where
  pub do_load : Bool
  pub do_exec : Bool
  pub do_shutdown : Bool
  pub do_sync : Bool
  pub do_ifdown : Bool
  pub do_unload : Bool
  pub on_crash : Bool
  pub type : Option Bytes
  pub least : ℕ
  pub most : ℕ

abbrev pub default_flags : Flags
default_flags = record {
  do_load = true;
  do_exec = false;
  do_shutdown = true;
  do_sync = true;
  do_ifdown = false;
  do_unload = false;
  on_crash = false;
  type = none;
  least = 0;
  most = ulong_max;
}

-- Go on with the flags, or return a status at once.
pub data Parsed : Type 0 where
  go_on : Flags → Parsed
  return : ℕ → Parsed

unfoldable pub set_flag : KexecOpt → Flags → Parsed
set_flag help g = return 0
set_flag version g = return 0
set_flag no_ifdown g = go_on (record g { do_ifdown = false })
set_flag force g = go_on (record g {
  do_load = true;
  do_shutdown = false;
  do_sync = true;
  do_ifdown = true;
  do_exec = true;
})
set_flag load g = go_on (record g { do_load = true; do_exec = false; do_shutdown = false })
set_flag unload g =
    go_on (record g { do_load = false; do_shutdown = false; do_sync = false; do_unload = true })
set_flag exec g = go_on (record g {
  do_load = false;
  do_shutdown = false;
  do_sync = true;
  do_ifdown = true;
  do_exec = true;
})
set_flag (type_is t) g = go_on (record g { type = some t })
set_flag panic g = go_on (record g {
  do_load = true;
  do_exec = false;
  do_shutdown = false;
  do_sync = false;
  on_crash = true;
})
set_flag (mem_min none) g = return 1
set_flag (mem_min (some n)) g = go_on (record g { least = n })
set_flag (mem_max none) g = return 1
set_flag (mem_max (some n)) g = go_on (record g { most = n })
set_flag other g = go_on g

unfoldable pub parse_flags : List KexecOpt → Flags → Parsed
unfolding set_flag
parse_flags [] g = go_on g
parse_flags (x ∷ xs) g = elim (set_flag x g) [ go_on g' ↦ parse_flags xs g' | return n ↦ return n ]

-- What is done, in this order.
pub data Step : Type 0 where
  unloads : Step
  loads : LoadEnd → Step
  shuts_down : Step
  syncs : Step
  downs_interfaces : Step
  starts_kernel : Step

-- What the system answers: is the result 0? The load is that of `my_load` with the flags.
pub record Answers : Type 0 where
  pub arch_ok : Bool
  pub unload_ok : Bool
  pub load_end : Flags → LoadEnd
  pub submit_ok : Submission → Bool
  -- one of the three programs named shutdown replaces this one
  pub shutdown_ok : Bool
  pub reboot_ok : Bool

-- The result of the program: a status of 0 or another one, another program or kernel in its place, or
-- no end.
pub data End : Type 0 where
  status : Bool → End
  replaced : End
  no_end : End

-- The steps that are done, and how the program ends. `ok` says that `result` is 0.
unfoldable pub run_exec : Answers → Flags → (ok : Bool) → List Step × End
run_exec a g ok =
    if ok && g.do_exec
    then (starts_kernel ∷ [], if a.reboot_ok then replaced else status false)
    else ([], status ok)

unfoldable pub run_ifdown : Answers → Flags → (ok : Bool) → List Step × End
unfolding run_exec
run_ifdown a g ok =
    let (steps, end) = run_exec a g ok in
    if ok && g.do_ifdown then (downs_interfaces ∷ steps, end) else (steps, end)

unfoldable pub run_sync : Answers → Flags → (ok : Bool) → List Step × End
unfolding run_ifdown
run_sync a g ok =
    let (steps, end) = run_ifdown a g ok in
    if ok && g.do_sync then (syncs ∷ steps, end) else (steps, end)

-- A shutdown program that is run does not come back; without one the result is -1.
unfoldable pub run_shutdown : Answers → Flags → (ok : Bool) → List Step × End
unfolding run_sync
run_shutdown a g ok =
    let (steps, end) = run_sync a g false in
    if ok && g.do_shutdown
    then (if a.shutdown_ok then (shuts_down ∷ [], replaced) else (steps, end))
    else run_sync a g ok

unfoldable pub after_load : Answers → Flags → LoadEnd → List Step × End
unfolding run_shutdown
after_load a g refused = run_shutdown a g false
after_load a g (submitted s) = run_shutdown a g (a.submit_ok s)
after_load a g (exited d) = ([], status false)
after_load a g never = ([], no_end)

unfoldable pub run_load : Answers → Flags → (ok : Bool) → List Step × End
unfolding after_load
run_load a g ok =
    let (steps, end) = after_load a g (a.load_end g) in
    if ok && g.do_load then (loads (a.load_end g) ∷ steps, end) else run_shutdown a g ok

-- The result of `k_unload` takes the place of that of the console's options.
unfoldable pub run_flags : Answers → Flags → List Step × End
unfolding run_load
run_flags a g =
    let (steps, end) = run_load a g a.unload_ok in
    if g.do_unload then (unloads ∷ steps, end) else run_load a g a.arch_ok

unfoldable pub main : Answers → List KexecOpt → List Step × End
unfolding parse_flags run_flags
main a opts = elim (parse_flags opts default_flags) [
  | go_on g ↦ run_flags a g
  | return n ↦ ([], status (elim n [ zero ↦ true | suc m ↦ false ]))
]

-- ===== src/Monoboot/Main.antt =====
-- monoboot/monoboot.c: `main`, `check_last` and `load_config`, and `get_keypress` of
-- monoboot/monoboot_cli.c.
pub mod Choice
use monoimage.Prelude.{
  ℕ, zero, suc, ◌+◌, Bool, true, false, Option, none, some, List, [], ◌∷◌, ◌++◌, ◌==◌,
  if◌then◌else◌, Bytes, codes,
}
use monoimage.CStr.{has_prefix, strcmp_eq}
use monoimage.Os.{Os, Trace}
use monoimage.Confuse.{Confuse, tryonce, default, fallback, lasttry, lastboot}
use monoimage.Monoboot.Exec.{do_exec, do_netconf, mount_binary}
use monoimage.Monoboot.Util.{Mounted, mounted, check_mounted}
use monoimage.Monoboot.Commands.{path_config, path_images, BootResult, cmd_boot}

-- One round of the wait: `signal` fails, the alarm rings, or a byte is read (0 for none).
pub data Tick : Type 0 where
  signal_failed : Tick
  alarm : Tick
  key : ℕ → Tick

-- The return values 0, 1 and -1.
pub data Keypress : Type 0 where
  pressed : Keypress
  timed_out : Keypress
  keypress_failed : Keypress

unfoldable pub keypress_loop : (delay : ℕ) → (round : ℕ) → (ℕ → Tick) → Keypress
keypress_loop zero round ticks = timed_out
keypress_loop (suc delay) round ticks =
    let rest = keypress_loop delay (suc round) ticks in
    elim (ticks round) [
      | signal_failed ↦ keypress_failed
      | alarm ↦ rest
      | key c ↦ if c == 0 then rest else pressed
    ]

-- With no delay there is no wait.
unfoldable pub get_keypress : ℕ → (ℕ → Tick) → Keypress
unfolding keypress_loop
get_keypress delay ticks = if delay == 0 then timed_out else keypress_loop delay 0 ticks

pub record Last (Cfg : Type 0) : Type 0 where
  pub cfg : Cfg
  pub image : Bytes
  pub success : Bool

-- Which image is next, and the configuration with `tryonce` off.
unfoldable pub check_last : {Cfg : Type 0} → Confuse Cfg → Cfg → Last Cfg
check_last c cfg =
    let cfg' = c.setstr cfg tryonce (codes "no") in
    if strcmp_eq (c.getstr cfg' lasttry) (c.getstr cfg' lastboot)
    then record { cfg = cfg'; image = c.getstr cfg' default; success = true }
    else record { cfg = cfg'; image = c.getstr cfg' fallback; success = false }

-- What `cfg_parse` makes of the configuration file.
pub data Parsed (Cfg : Type 0) : Type 0 where
  file_error : Parsed Cfg
  parse_error : Parsed Cfg
  parsed : Cfg → Parsed Cfg

-- How `main` ends: by `exit`, in the interactive shell, or after `cmd_boot`.
pub data MainEnd (Cfg : Type 0) : Type 0 where
  exited : ℕ → Trace → MainEnd Cfg
  shell : Cfg → Trace → MainEnd Cfg
  booted : BootResult Cfg → MainEnd Cfg

-- A mount that fails is only reported.
unfoldable pub mount_missing : Os → Bytes → Trace → Trace
mount_missing os path t = elim (check_mounted os path t) [
  | mounted ↦ t
  | _ ↦ (do_exec os mount_binary (codes "mount" ∷ path ∷ []) t).1
]

-- Is the program to be interactive? By its name, and for `monoboot` by a key in time.
unfoldable pub interactive : Bytes → Keypress → Bool
interactive name press =
    if has_prefix (codes "mbsh") name
    then true
    else if has_prefix (codes "monoboot") name
    then elim press [ pressed ↦ true | _ ↦ false ]
    else true

unfoldable pub run_as :
    {Cfg : Type 0} → Confuse Cfg → Os → (name : Bytes) → (ℕ → Tick) → Cfg → Trace → MainEnd Cfg
unfolding check_last interactive get_keypress cmd_boot
run_as c os name ticks cfg t =
    let last = check_last c cfg in
    if interactive name (get_keypress (c.delay cfg) ticks)
    then shell last.cfg t
    else booted (cmd_boot c os last.cfg (some last.image) t)

-- `name` is the base name of argv[0], `parse` is cfg_parse, and `start` is what the uninitialised sum
-- of `do_netconf` happens to hold.
unfoldable pub main :
    {Cfg : Type 0}
    → Confuse Cfg
    → Os
    → (Trace → Parsed Cfg)
    → (start : ℕ) → (name : Bytes) → (ℕ → Tick)
    → Trace
    → MainEnd Cfg
unfolding mount_missing do_netconf run_as
main c os parse start name ticks t =
    let t' = mount_missing os path_images (mount_missing os path_config t) in
    elim (parse t') [
      | file_error ↦ exited 1 t'
      | parse_error ↦ exited 2 t'
      | parsed cfg ↦
          if has_prefix (codes "mbnet") name
          then exited 0 (do_netconf c os start cfg t').1
          else run_as c os name ticks cfg t'
    ]

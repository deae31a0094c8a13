-- ===== src/Monoboot/Exec.antt =====
-- monoboot/monoboot_exec.c: running children, the copy by tftp, and the network configuration.
pub mod Copy
use monoimage.Prelude.{
  ℕ, ◌+◌, Bool, ◌&&◌, Option, none, some, List, [], ◌∷◌, ◌==◌, if◌then◌else◌, Bytes, codes, take,
}
use monoimage.CStr.{has_prefix}
use monoimage.Os.{Os, Trace, ran, ChildStatus, fork_failed, wait_failed, exited, signalled}
use monoimage.Confuse.{Confuse, NetworkSection}

-- MAXARGS
abbrev pub max_args : ℕ
max_args = 31

-- The return value of `do_exec`: 0 only for a child that exits with 0.
unfoldable pub exec_result : ChildStatus → ℕ
exec_result fork_failed = 1
exec_result wait_failed = 1
exec_result (exited n) = if n == 0 then 0 else 1
exec_result signalled = 1

-- The arguments are copied to an array of MAXARGS entries; what is over is dropped.
unfoldable pub do_exec : Os → Bytes → List Bytes → Trace → ℕ × Trace
unfolding exec_result
do_exec os binary args t =
    let argv = take max_args args in (exec_result (os.child t binary argv), ran binary argv ∷ t)

abbrev pub kexec_binary : Bytes
kexec_binary = codes "/usr/sbin/kexec"

abbrev pub tftp_binary : Bytes
tftp_binary = codes "/usr/bin/tftp"

abbrev pub ip_binary : Bytes
ip_binary = codes "/bin/ip"

abbrev pub mount_binary : Bytes
mount_binary = codes "/bin/mount"

abbrev pub slash : ℕ
slash = 47

abbrev pub is_slash : ℕ → Bool
is_slash c = c == slash

-- `while (*p != '/') p++;`: the text from the first slash on, or none where there is none and the
-- loop runs past the end.
unfoldable pub to_slash : Bytes → Option Bytes
to_slash [] = none
to_slash (x ∷ s) = if is_slash x then some (x ∷ s) else to_slash s

-- `while (*p == '/') p++;`
unfoldable pub skip_slashes : Bytes → Bytes
skip_slashes [] = []
skip_slashes (x ∷ s) = if is_slash x then skip_slashes s else x ∷ s

-- The text up to the first slash, which is overwritten by NUL, and the text behind it.
unfoldable pub cut_at_slash : Bytes → Option (Bytes × Bytes)
cut_at_slash [] = none
cut_at_slash (x ∷ s) =
    if is_slash x
    then some ([], s)
    else elim (cut_at_slash s) [ none ↦ none | some (a, b) ↦ some (x ∷ a, b) ]

-- What `do_tftp` makes of its arguments; `runs_off` is a loop past the end of a text.
pub data Transfer : Type 0 where
  get : (host file : Bytes) → Transfer
  put : (host file : Bytes) → Transfer
  unparsed : Transfer
  runs_off : Transfer

-- Scheme, slashes, host, slashes, file.
unfoldable pub parse_get : Bytes → Transfer
unfolding to_slash skip_slashes cut_at_slash
parse_get src = elim (to_slash src) [
  | none ↦ runs_off
  | some p ↦ elim (cut_at_slash (skip_slashes p)) [
    | none ↦ runs_off
    | some (host, rest) ↦ get host (skip_slashes rest)
  ]
]

unfoldable pub parse_put : Bytes → Bytes → Transfer
unfolding to_slash skip_slashes cut_at_slash
parse_put src dst = elim (to_slash dst) [
  | none ↦ runs_off
  | some p ↦ elim (cut_at_slash (skip_slashes p)) [
    | none ↦ runs_off
    | some (host, rest) ↦ elim (cut_at_slash src) [
      | none ↦ runs_off
      | some (disk, path) ↦ put host (skip_slashes path)
    ]
  ]
]

unfoldable pub parse_transfer : Bytes → Bytes → Transfer
unfolding parse_get parse_put
parse_transfer src dst =
    if has_prefix (codes "tftp:/") src && has_prefix (codes "disk:/") dst
    then parse_get src
    else if has_prefix (codes "tftp:/") dst && has_prefix (codes "disk:/") src
    then parse_put src dst
    else unparsed

abbrev pub tftp_args : (host cmd file : Bytes) → List Bytes
tftp_args host cmd file = codes "tftp" ∷ host ∷ codes "-v" ∷ codes "-c" ∷ cmd ∷ file ∷ []

-- `none` is the undefined behaviour of a loop past the end.
unfoldable pub do_tftp : Os → (src dst : Bytes) → Trace → Option (ℕ × Trace)
unfolding parse_transfer do_exec
do_tftp os src dst t = elim (parse_transfer src dst) [
  | get host file ↦ some (do_exec os tftp_binary (tftp_args host (codes "get") file) t)
  | put host file ↦ some (do_exec os tftp_binary (tftp_args host (codes "put") file) t)
  | unparsed ↦ some (1, t)
  | runs_off ↦ none
]

-- The five commands for one interface; the link that is set up is always eth0.
abbrev net_commands : NetworkSection → List (List Bytes)
net_commands n =
    (codes "ip" ∷ codes "address" ∷ codes "flush" ∷ codes "dev" ∷ n.iface ∷ [])
    ∷ (codes "ip" ∷ codes "address" ∷ codes "add" ∷ n.address ∷ codes "dev" ∷ n.iface ∷ [])
    ∷ (codes "ip" ∷ codes "link" ∷ codes "set" ∷ codes "eth0" ∷ codes "up" ∷ [])
    ∷ (codes "ip" ∷ codes "route" ∷ codes "del" ∷ codes "default" ∷ [])
    ∷ (codes "ip" ∷ codes "route" ∷ codes "add" ∷ codes "default" ∷ codes "via" ∷ n.gateway ∷ [])
    ∷ []

unfoldable pub run_all : Os → List (List Bytes) → ℕ → Trace → ℕ × Trace
unfolding do_exec
run_all os [] ret t = (ret, t)
run_all os (args ∷ rest) ret t =
    let (r, t') = do_exec os ip_binary args t in run_all os rest (ret + r) t'

unfoldable pub netconf_loop : Os → List NetworkSection → ℕ → Trace → ℕ × Trace
unfolding run_all
netconf_loop os [] ret t = (ret, t)
netconf_loop os (n ∷ rest) ret t =
    let (r, t') = run_all os (net_commands n) ret t in netconf_loop os rest r t'

-- `ret` is not initialised: `start` is what it happens to hold.
unfoldable pub do_netconf : {Cfg : Type 0} → Confuse Cfg → Os → ℕ → Cfg → Trace → ℕ × Trace
unfolding netconf_loop
do_netconf c os start cfg t = netconf_loop os (c.networks cfg) start t

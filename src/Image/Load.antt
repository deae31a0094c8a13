-- ===== src/Image/Load.antt =====
-- kexec-tools/kexec/arch/i386/kexec-monoimage.c: `monoimage_load`, which finds the devices of the
-- image and of the configuration, writes the kernel's command line, and hands the parts of the image
-- to the loader of bzImage files.
pub mod Devices
pub mod Found
use monoimage.Prelude.{
  ℕ, zero, suc, ◌+◌, Bool, true, false, not, ◌&&◌, Option, none, some, List, [], ◌∷◌, ◌++◌, ltb,
  ◌==◌, if◌then◌else◌, Bytes, codes, length, drop,
}
use monoimage.CStr.{has_prefix, strcmp_eq, span_until}
use monoimage.Cmdline.{load_line, read_line}
use monoimage.Uuid.{uuid2str}
use monoimage.Image.{header_size, Parts, load_parts}

-- One result of getopt_long.
pub data Opt : Type 0 where
  debug : Opt
  real_mode : Opt
  append : Bytes → Opt
  config : Bytes → Opt
  -- an option of kexec itself, which is ignored
  core : Opt
  unknown : Opt

pub record Options : Type 0 where
  pub command_line_append : Option Bytes
  pub configfile : Option Bytes
  pub real_mode_entry : Bool

unfoldable pub set_option : Opt → Options → Option Options
set_option debug o = some o
set_option real_mode o = some (record {
  command_line_append = o.command_line_append;
  configfile = o.configfile;
  real_mode_entry = true;
})
set_option (append text) o = some (record {
  command_line_append = some text;
  configfile = o.configfile;
  real_mode_entry = o.real_mode_entry;
})
set_option (config file) o = some (record {
  command_line_append = o.command_line_append;
  configfile = some file;
  real_mode_entry = o.real_mode_entry;
})
set_option core o = some o
set_option unknown o = none

unfoldable pub parse_options : List Opt → Options → Option Options
unfolding set_option
parse_options [] o = some o
parse_options (x ∷ xs) o = elim (set_option x o) [ none ↦ none | some o' ↦ parse_options xs o' ]

abbrev pub no_options : Options
no_options = record { command_line_append = none; configfile = none; real_mode_entry = false }

-- What stat tells: the device that holds a file, the device that a node stands for, and whether the
-- node is a block device.
pub record Node : Type 0 where
  pub st_dev : ℕ
  pub st_rdev : ℕ
  pub is_block : Bool

pub data Stat : Type 0 where
  ok : Node → Stat
  -- errno is ENOENT
  absent : Stat
  stat_error : Stat

-- The system: files and devices, and what variables hold before they are written.
pub record System : Type 0 where
  pub stat : Bytes → Stat
  pub dev_names : Option (List Bytes)
  pub superblock_uuid : Bytes → Option Bytes
  pub mounts : Bytes
  pub uninitialised_node : Node
  pub unwritten_images_dev : Bytes
  pub unwritten_config_dev : Bytes
  pub unwritten_mpoint : Bytes

abbrev pub buf_size : ℕ
buf_size = 256

-- A value, the return of -1, or an overrun.
pub data Result (A : Type 0) : Type 0 where
  done : A → Result A
  failed : Result A
  undefined : Result A

-- The first of the arguments that names a file. If there is none, `fopen` is called with NULL.
unfoldable pub find_image : System → List Bytes → Result (Bytes × Node)
find_image s [] = undefined
find_image s (arg ∷ args) =
    let rest = find_image s args in
    elim (s.stat arg) [
      | ok node ↦ done (arg, node)
      | stat_error ↦ failed
      | absent ↦ if s.uninitialised_node.st_dev == 0 then failed else rest
    ]

-- The two devices that the walk has found up to now, and the last node that stat wrote.
pub record Walk : Type 0 where
  pub images_dev : Bytes
  pub config_dev : Bytes
  pub devbuf : Node

unfoldable pub note_device : (images_at config_at : ℕ) → (path : Bytes) → Node → Walk → Walk
note_device images_at config_at path node w = record {
  images_dev = if node.st_rdev == images_at && node.is_block then path else w.images_dev;
  config_dev = if node.st_rdev == config_at && node.is_block then path else w.config_dev;
  devbuf = node;
}

-- A name without a file leaves `devbuf` as the name before it did.
unfoldable pub walk_dev : System → (images_at config_at : ℕ) → List Bytes → Walk → Result Walk
unfolding note_device
walk_dev s images_at config_at [] w = done w
walk_dev s images_at config_at (name ∷ names) w =
    let path = codes "/dev/" ++ name in
    let seen : Node → Result Walk =
      λ node. walk_dev s images_at config_at names (note_device images_at config_at path node w) in
    if not (ltb (length path) buf_size)
    then undefined
    else elim (s.stat path) [ stat_error ↦ failed | absent ↦ seen w.devbuf | ok node ↦ seen node ]

abbrev pub start_walk : System → Walk
start_walk s = record {
  images_dev = s.unwritten_images_dev;
  config_dev = s.unwritten_config_dev;
  devbuf = s.uninitialised_node;
}

-- `ext2_uuid` of kexec-tools/util_lib/ext2_uuid.c, which does not look at the result of ext2fs_open:
-- where it fails, a pointer that was never set is followed.
unfoldable pub device_uuid : System → Bytes → Result Bytes
device_uuid s dev = elim (s.superblock_uuid dev) [
  | none ↦ undefined
  | some uuid ↦ done (uuid2str uuid)
]

unfoldable pub config_uuid_of : System → (images_dev config_dev images_uuid : Bytes) → Result Bytes
unfolding device_uuid
config_uuid_of s images_dev config_dev images_uuid =
    if strcmp_eq images_dev config_dev then done images_uuid else device_uuid s config_dev

abbrev pub is_space : ℕ → Bool
is_space c = c == 32

-- The text up to the first space; without one the loop runs off.
unfoldable pub mount_point_of : Bytes → Result Bytes
mount_point_of line =
    let (point, rest) = span_until is_space line in
    elim rest [ [] ↦ undefined | x ∷ more ↦ done point ]

-- The lines of /proc/mounts, as fgets gives them; `fuel` bounds their number.
unfoldable pub find_mount : (fuel : ℕ) → (dev uninitialised text : Bytes) → Result Bytes
unfolding mount_point_of
find_mount zero dev uninitialised text = done uninitialised
find_mount (suc fuel) dev uninitialised [] = done uninitialised
find_mount (suc fuel) dev uninitialised (b ∷ text) =
    let line = read_line 255 (b ∷ text) in
    let rest = find_mount fuel dev uninitialised (drop (length line) (b ∷ text)) in
    if has_prefix dev line then mount_point_of (drop (length dev + 1) line) else rest

-- Both pointers move on while the bytes are the same; past the end of both they run off.
unfoldable pub below : (mount_point path : Bytes) → Result Bytes
below [] [] = undefined
below [] (y ∷ path) = done (y ∷ path)
below (x ∷ m) [] = done []
below (x ∷ m) (y ∷ path) = let rest = below m path in if x == y then rest else done (y ∷ path)

-- A leading slash is skipped.
unfoldable pub skip_slash : Bytes → Bytes
skip_slash [] = []
skip_slash (x ∷ path) = if x == 47 then path else x ∷ path

-- The call of `do_bzImage_load`, whose result `monoimage_load` returns.
pub record Call : Type 0 where
  pub command_line : Bytes
  pub parts : Parts
  pub real_mode_entry : Bool

unfoldable pub bind : {A B : Type 0} → Result A → (A → Result B) → Result B
bind (done a) f = f a
bind failed f = failed
bind undefined f = undefined

-- The command line has an array of 256 bytes; the copies read past the buffer if the header is wrong.
unfoldable pub call_loader : Options → (line : Bytes) → (buf : Bytes) → Result Call
unfolding load_parts
call_loader o line buf =
    if not (ltb (length line) buf_size) then undefined else elim (load_parts buf) [
      | none ↦ undefined
      | some parts ↦
          done (record { command_line = line; parts = parts; real_mode_entry = o.real_mode_entry })
    ]

-- From the two devices on.
unfoldable pub load_from : System → Options → (image : Bytes) → Walk → (buf : Bytes) → Result Call
unfolding find_mount below skip_slash config_uuid_of device_uuid call_loader bind
load_from s o image w buf = bind (device_uuid s w.images_dev) (λ images_uuid.
    bind (config_uuid_of s w.images_dev w.config_dev images_uuid) (λ config_uuid.
      bind (find_mount (length s.mounts) w.images_dev s.unwritten_mpoint s.mounts) (λ point.
        bind (below point image) (λ rest.
          call_loader o (load_line o.command_line_append (skip_slash rest) images_uuid config_uuid)
            buf))))

unfoldable pub walk_from :
    System → Options → (config_at : ℕ) → (image : Bytes) → Node → (buf : Bytes) → Result Call
unfolding walk_dev load_from bind
walk_from s o config_at image node buf = elim s.dev_names [
  | none ↦ failed
  | some names ↦
      bind (walk_dev s node.st_dev config_at names (start_walk s)) (λ w. load_from s o image w buf)
]

-- With the configuration file, which is mandatory.
unfoldable pub load_with :
    System → Options → (configfile : Bytes) → (args : List Bytes) → (buf : Bytes) → Result Call
unfolding find_image walk_from bind
load_with s o configfile args buf = bind (find_image s args) (λ (image, node).
    elim (s.stat configfile) [ ok node' ↦ walk_from s o node'.st_dev image node buf | _ ↦ failed ])

-- `opts` is what getopt_long gives, and `args` is argv from 1 on, in the order that it leaves.
unfoldable pub monoimage_load :
    System → (opts : List Opt) → (args : List Bytes) → (buf : Bytes) → Result Call
unfolding parse_options load_with
monoimage_load s opts args buf = elim (parse_options opts no_options) [
  | none ↦ failed
  | some o ↦ elim o.configfile [
    | none ↦ failed
    | some configfile ↦ load_with s o configfile args buf
  ]
]

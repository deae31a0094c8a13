-- ===== src/Image/Load/Found.antt =====
-- What `monoimage_load` has found out when it calls the loader.
use monoimage.Prelude.{
  ℕ, ◌+◌, ◌<◌, ◌^◌, ◌≡◌, refl, ap, sym, ◌∙◌, inl, inr, false, some, List, [], ◌∷◌, ◌++◌, ◌==◌,
  Bytes, length, All, arith, Option-cases,
}
use monoimage.Uuid.{uuid2str}
use monoimage.Cmdline.{load_line}
use monoimage.Image.{load_parts, make_image, header_size}
use monoimage.Image.Laws.{load_image}
use monoimage.Image.Load.{
  Opt, debug, real_mode, append, config, core, unknown, Options, set_option, parse_options,
  no_options, Node, ok, System, buf_size, done, failed, find_image, find_mount, below, skip_slash,
  Call, monoimage_load,
}
use monoimage.Image.Load.Devices.{IsDeviceAt}

-- An option that names no configuration file.
abbrev pub NoConfig : Opt → Type 0
NoConfig (config file) = ⊥
NoConfig o = Unit

parse_options-NoConfig :
    (opts : List Opt) (o o' : Options)
    → All NoConfig opts
    → parse_options opts o ≡ some o'
    → o'.configfile ≡ o.configfile
unfolding parse_options set_option
parse_options-NoConfig [] o o' h e = ground arith
parse_options-NoConfig (debug ∷ opts) o o' h e = parse_options-NoConfig opts o o' h.1 e
parse_options-NoConfig (real_mode ∷ opts) o o' h e = parse_options-NoConfig opts _ o' h.1 e
parse_options-NoConfig (append text ∷ opts) o o' h e = parse_options-NoConfig opts _ o' h.1 e
parse_options-NoConfig (config file ∷ opts) o o' h e = absurd h.0
parse_options-NoConfig (core ∷ opts) o o' h e = parse_options-NoConfig opts o o' h.1 e
parse_options-NoConfig (unknown ∷ opts) o o' h e = absurd (ground arith)

-- Without --config nothing is loaded, whatever else the command line and the system hold.
pub monoimage_load-NoConfig :
    (s : System) (opts : List Opt) (args : List Bytes) (buf : Bytes)
    → All NoConfig opts
    → monoimage_load s opts args buf ≡ failed
unfolding monoimage_load
monoimage_load-NoConfig s opts args buf h = elim (Option-cases (parse_options opts no_options)) [
  | inl e ↦ rw (e, monoimage_load)
  | inr (o, e) ↦ rw (e, parse_options-NoConfig opts no_options o h e, monoimage_load)
]

skip_slash_under :
    (m path : Bytes)
    → (rest : Bytes) × (below m (m ++ 47 ∷ path) ≡ done rest) × (skip_slash rest ≡ path)
unfolding below skip_slash
skip_slash_under [] path = (47 ∷ path, refl, refl)
skip_slash_under (x ∷ m) path =
    let (rest, e, f) = skip_slash_under m path in (rest, ground (arith, e), f)

-- The two texts do not begin with the same byte.
abbrev pub Diverge : Bytes → Bytes → Type 0
Diverge (x ∷ left) (y ∷ rest) = (x == y) ≡ false
Diverge left rest = Unit

-- The rest of the path is what follows the longest text that the mount point begins with as well.
abbrev pub IsBelow : (point path rest : Bytes) → Type 0
IsBelow point path rest =
    (common : Bytes) × (left : Bytes) × (point ≡ common ++ left)
    × (path ≡ common ++ rest)
    × Diverge left rest

-- What was found, and that the call is made of it.
pub record IsLoaded (s : System) (opts : List Opt) (args : List Bytes) (buf : Bytes) (call : Call)
    : Type 0 where
  pub options : Options
  pub parsed : parse_options opts no_options ≡ some options
  pub image : Bytes
  pub node : Node
  pub named : find_image s args ≡ done (image, node)
  pub configfile : Bytes
  pub config_named : options.configfile ≡ some configfile
  pub config_node : Node
  pub config_there : s.stat configfile ≡ ok config_node
  pub names : List Bytes
  pub listed : s.dev_names ≡ some names
  pub images_dev : Bytes
  pub images_at :
      IsDeviceAt s node.st_dev names s.uninitialised_node s.unwritten_images_dev images_dev
  pub config_dev : Bytes
  pub config_at :
      IsDeviceAt s config_node.st_dev names s.uninitialised_node s.unwritten_config_dev config_dev
  pub point : Bytes
  pub mounted : find_mount (length s.mounts) images_dev s.unwritten_mpoint s.mounts ≡ done point
  pub rest : Bytes
  pub under : below point image ≡ done rest
  pub is_below : IsBelow point image rest
  pub images_uuid : Bytes
  pub images_super : Bytes
  pub images_read : s.superblock_uuid images_dev ≡ some images_super
  pub images_text : images_uuid ≡ uuid2str images_super
  pub config_uuid : Bytes
  pub config_super : Bytes
  pub config_read : s.superblock_uuid config_dev ≡ some config_super
  pub config_text : config_uuid ≡ uuid2str config_super
  pub line :
      call.command_line
      ≡ load_line options.command_line_append (skip_slash rest) images_uuid config_uuid
  pub line_fits : length call.command_line < buf_size
  pub parts : load_parts buf ≡ some call.parts
  pub entry : call.real_mode_entry ≡ options.real_mode_entry

-- For a file that lies under the mount point, the text behind F is its path there, and for an image
-- that makeimage.pl wrote, whose header, kernel and ramdisk are shorter than 2^31 bytes together, the
-- loader is given the kernel and the ramdisk that were put in.
pub IsLoaded-make_image :
    (s : System) (opts : List Opt) (args : List Bytes) (format runfrom : ℕ)
    (kernel ramdisk rootfs : Bytes) (call : Call)
    (l : IsLoaded s opts args (make_image format runfrom kernel ramdisk rootfs) call) (path : Bytes)
    → header_size + length kernel + length ramdisk < 2 ^ 31
    → l.image ≡ l.point ++ 47 ∷ path
    → (call.parts ≡ record { kernel = kernel; ramdisk = ramdisk })
      × (call.command_line
          ≡ load_line l.options.command_line_append path l.images_uuid l.config_uuid)
IsLoaded-make_image s opts args format runfrom kernel ramdisk rootfs call l path small e =
    let (rest, u, f) = skip_slash_under l.point path in
    let same : done l.rest ≡ done rest = sym l.under ∙ ap (below l.point) e ∙ u in
    let rest_same : l.rest ≡ rest = cc in
    let parts : some call.parts ≡ some (record { kernel = kernel; ramdisk = ramdisk }) =
      sym l.parts ∙ load_image format runfrom kernel ramdisk rootfs small in
    (cc, l.line ∙ rw (rest_same, f))

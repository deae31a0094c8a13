-- ===== src/Examples/Image.antt =====
-- An image on a mounted partition, loaded by kexec, and an identifier printed and read back.
use monoimage.Prelude.{
  ◌<◌, ◌≡◌, refl, inr, true, false, some, List, [], ◌∷◌, Bytes, codes, All, length, arith,
  if◌then◌else◌,
}
use monoimage.CStr.{strcmp_eq, has_prefix, span_until}
use monoimage.Cmdline.{load_line, read_line}
use monoimage.Uuid.{uuid2str, null_loop, uuid_to_str, is_null_uuid}
use monoimage.Uuid.Laws.{parse_uuid}
use monoimage.Uuid.Text.{sixteen, parse_uuid-uuid_to_str}
use monoimage.Image.{
  make_image, make_header, le_bytes, decode_kexec, field_at, le_word, load_parts, parts_at, slice,
  distance,
}
use monoimage.Image.Load.{
  Opt, no_options, append, core, config, Node, ok, absent, System, done, failed, Call,
  monoimage_load, parse_options, set_option, find_image, find_mount, mount_point_of, below,
  skip_slash,
}
use monoimage.Image.Load.Devices.{IsDeviceAt}
use monoimage.Image.Load.Found.{IsLoaded, monoimage_load-NoConfig, IsLoaded-make_image}

abbrev kernel : Bytes
kernel = 1 ∷ 2 ∷ 3 ∷ []

abbrev ramdisk : Bytes
ramdisk = 4 ∷ 5 ∷ []

abbrev image_text : Bytes
image_text = make_image 1 0 kernel ramdisk (6 ∷ [])

abbrev file_node : Node
file_node = record { st_dev = 769; st_rdev = 0; is_block = false }

abbrev device_node : Node
device_node = record { st_dev = 5; st_rdev = 769; is_block = true }

abbrev image_path : Bytes
image_path = codes "/images/a.img"

abbrev config_path : Bytes
config_path = codes "/images/mb"

abbrev system : System
system = record {
  stat = λ path.
      if strcmp_eq path image_path
      then ok file_node
      else if strcmp_eq path config_path
      then ok file_node
      else if strcmp_eq path (codes "/dev/hda1")
      then ok device_node
      else absent;
  dev_names = some (codes "null" ∷ codes "hda1" ∷ []);
  superblock_uuid =
      λ path. some (0 ∷ 0 ∷ 0 ∷ 0 ∷ 0 ∷ 0 ∷ 0 ∷ 0 ∷ 0 ∷ 0 ∷ 0 ∷ 0 ∷ 0 ∷ 0 ∷ 0 ∷ 1 ∷ []);
  mounts = codes "proc /proc proc rw\n/dev/hda1 /images ext3 rw\n";
  uninitialised_node = record { st_dev = 1; st_rdev = 0; is_block = false };
  unwritten_images_dev = codes "?";
  unwritten_config_dev = codes "??";
  unwritten_mpoint = codes "???";
}

abbrev call : Call
call = record {
  command_line = load_line (some (codes "quiet")) (codes "a.img") (codes "<none>") (codes "<none>");
  parts = record { kernel = kernel; ramdisk = ramdisk };
  real_mode_entry = false;
}

abbrev args : List Bytes
args = codes "-l" ∷ image_path ∷ []

abbrev opts : List Opt
opts = append (codes "quiet") ∷ config config_path ∷ []

parsed :
    parse_options opts no_options
    ≡ some (record {
      command_line_append = some (codes "quiet");
      configfile = some config_path;
      real_mode_entry = false;
    })
unfolding parse_options set_option
parsed = refl

monoimage_load-NoConfig_example :
    monoimage_load system (append (codes "quiet") ∷ core ∷ []) args image_text ≡ failed
monoimage_load-NoConfig_example =
    monoimage_load-NoConfig system (append (codes "quiet") ∷ core ∷ []) args image_text
      (tt, (tt, tt))

named : find_image system args ≡ done (image_path, file_node)
unfolding find_image strcmp_eq
named = refl

config_there : system.stat config_path ≡ ok file_node
unfolding strcmp_eq
config_there = refl

-- `null` is not there, and `hda1` is the device with the number 769.
device_at :
    (unwritten : Bytes)
    → IsDeviceAt system 769
        (codes "null" ∷ codes "hda1" ∷ [])
        system.uninitialised_node
        unwritten
        (codes "/dev/hda1")
unfolding strcmp_eq
device_at unwritten = inr (codes "null" ∷ [], codes "hda1", [], refl, refl, refl, tt)

mounts_found :
    find_mount (length system.mounts) (codes "/dev/hda1") system.unwritten_mpoint system.mounts
    ≡ done (codes "/images")
unfolding find_mount mount_point_of read_line has_prefix span_until
mounts_found = refl

under : below (codes "/images") image_path ≡ done (codes "/a.img")
unfolding below
under = refl

line_of :
    call.command_line
    ≡ load_line
        (some (codes "quiet"))
        (skip_slash (codes "/a.img"))
        (codes "<none>")
        (codes "<none>")
unfolding skip_slash
line_of = refl

abbrev zero_uuid : Bytes
zero_uuid = 0 ∷ 0 ∷ 0 ∷ 0 ∷ 0 ∷ 0 ∷ 0 ∷ 0 ∷ 0 ∷ 0 ∷ 0 ∷ 0 ∷ 0 ∷ 0 ∷ 0 ∷ 1 ∷ []

uuid_text : codes "<none>" ≡ uuid2str zero_uuid
unfolding uuid2str is_null_uuid null_loop
uuid_text = refl

line_fits : length call.command_line < 256
unfolding load_line
line_fits = omega arith

parts_of : load_parts image_text ≡ some call.parts
unfolding load_parts parts_at slice distance decode_kexec field_at le_word le_bytes make_image
    make_header
parts_of = refl

abbrev is_loaded : IsLoaded system opts args image_text call
is_loaded = record {
  options = record {
    command_line_append = some (codes "quiet");
    configfile = some config_path;
    real_mode_entry = false;
  };
  parsed = parsed;
  image = image_path;
  node = file_node;
  named = named;
  configfile = config_path;
  config_named = refl;
  config_node = file_node;
  config_there = config_there;
  names = codes "null" ∷ codes "hda1" ∷ [];
  listed = refl;
  images_dev = codes "/dev/hda1";
  images_at = device_at (codes "?");
  config_dev = codes "/dev/hda1";
  config_at = device_at (codes "??");
  point = codes "/images";
  mounted = mounts_found;
  rest = codes "/a.img";
  under = under;
  is_below = (codes "/images", [], refl, refl, tt);
  images_uuid = codes "<none>";
  images_super = zero_uuid;
  images_read = refl;
  images_text = uuid_text;
  config_uuid = codes "<none>";
  config_super = zero_uuid;
  config_read = refl;
  config_text = uuid_text;
  line = line_of;
  line_fits = line_fits;
  parts = parts_of;
  entry = refl;
}

IsLoaded-make_image_example :
    (call.parts ≡ record { kernel = kernel; ramdisk = ramdisk })
    × (call.command_line
        ≡ load_line is_loaded.options.command_line_append
            (codes "a.img")
            is_loaded.images_uuid
            is_loaded.config_uuid)
IsLoaded-make_image_example =
    IsLoaded-make_image system opts args 1 0 kernel ramdisk (6 ∷ []) call is_loaded (codes "a.img")
      (omega arith) refl

are_bytes : All (λ x. x < 256) (sixteen 1 2 3 4 5 6 7 8 9 10 11 12 13 14 15 255)
are_bytes = (
  omega arith,
  (
    omega arith,
    (
      omega arith,
      (
        omega arith,
        (
          omega arith,
          (
            omega arith,
            (
              omega arith,
              (
                omega arith,
                (
                  omega arith,
                  (
                    omega arith,
                    (
                      omega arith,
                      (omega arith, (omega arith, (omega arith, (omega arith, (omega arith, tt))))),
                    ),
                  ),
                ),
              ),
            ),
          ),
        ),
      ),
    ),
  ),
)

parse_uuid-uuid_to_str_example :
    parse_uuid (uuid_to_str (sixteen 1 2 3 4 5 6 7 8 9 10 11 12 13 14 15 255))
    ≡ sixteen 1 2 3 4 5 6 7 8 9 10 11 12 13 14 15 255
parse_uuid-uuid_to_str_example =
    parse_uuid-uuid_to_str 1 2 3 4 5 6 7 8 9 10 11 12 13 14 15 255 are_bytes

-- ===== src/Examples/Linuxrc.antt =====
-- A kernel with one partition that holds an image, and the command line that names it.
use monoimage.Prelude.{
  ◌+◌, ◌<◌, ◌≤◌, ◌≡◌, refl, inl, true, none, some, [], ◌∷◌, ◌++◌, Bytes, codes, length, arith,
  if◌then◌else◌,
}
use monoimage.CStr.{strcmp_eq, strstr, has_prefix}
use monoimage.Cmdline.{
  value, get_cmdline_var, fgets, read_line, load_line, var_at, copy_value, end_offset,
}
use monoimage.Cmdline.Laws.{lacks_of, space, newline}
use monoimage.Cmdline.Handover.{
  IsWord, IsHandover, proc_cmdline, with_config, get_cmdline_var-with_config,
}
use monoimage.Uuid.{uuid2str, print_uuid, hex, unpack_uuid, read_word, push_byte, hex_bytes}
use monoimage.Image.{
  header_size, make_image, make_header, le_bytes, decode_linuxrc, field_at, le_word,
}
use monoimage.Linuxrc.{
  Kernel, Trace, success, cmdline_path, asked, buf_max, in_images, loop_dev, parse_line, main,
  mounted, lo_offset, set_loop,
}
use monoimage.Linuxrc.Line.{parse_line-load_line}
use monoimage.Linuxrc.Attach.{
  SetLoopEnds, IsBooted, IsAttached, main-IsBooted, IsAttached-make_image,
}

abbrev uuid : Bytes
uuid = 1 ∷ 2 ∷ 3 ∷ 4 ∷ 5 ∷ 6 ∷ 7 ∷ 8 ∷ 9 ∷ 10 ∷ 11 ∷ 12 ∷ 13 ∷ 14 ∷ 15 ∷ 16 ∷ []

abbrev uuid_text : Bytes
uuid_text = codes "01020304-0506-0708-090a-0b0c0d0e0f10"

abbrev config_text : Bytes
config_text = codes "33-44"

abbrev image_name : Bytes
image_name = codes "stable.img"

abbrev cmdline : Bytes
cmdline = proc_cmdline (codes "quiet") image_name uuid_text config_text

abbrev kernel : Bytes
kernel = 1 ∷ 2 ∷ 3 ∷ []

abbrev image_text : Bytes
image_text = make_image 1 0 kernel (4 ∷ 5 ∷ []) (6 ∷ [])

abbrev boot_kernel : Kernel
boot_kernel = record {
  mount_ok = λ t device place. true;
  umount_ok = λ t place. true;
  stat_ok = λ t path. true;
  file = λ t path. if strcmp_eq path cmdline_path then some cmdline else some image_text;
  dev_names = some (codes "null" ∷ codes "hda" ∷ codes "hda1" ∷ []);
  is_block = λ path. has_prefix (codes "/dev/hda") path;
  superblock_uuid = λ path. if strcmp_eq path (codes "/dev/hda1") then some uuid else none;
  open_rw_ok = λ t path. true;
  set_fd_ok = λ t device path. true;
  set_status_ok = λ t device offset. true;
}

is_word : IsWord image_name
is_word = record {
  no_space = lacks_of space image_name refl;
  no_newline = lacks_of newline image_name refl;
}

is_handover : IsHandover (codes "quiet") image_name uuid_text config_text
is_handover = record {
  append_plain = (
    lacks_of b'F' (codes "quiet") refl,
    lacks_of b'I' (codes "quiet") refl,
    lacks_of b'C' (codes "quiet") refl,
  );
  image_word = is_word;
  image_plain = (lacks_of b'I' image_name refl, lacks_of b'C' image_name refl);
  images_word = record {
    no_space = lacks_of space uuid_text refl;
    no_newline = lacks_of newline uuid_text refl;
  };
  images_plain = lacks_of b'C' uuid_text refl;
  config_word = record {
    no_space = lacks_of space config_text refl;
    no_newline = lacks_of newline config_text refl;
  };
}

short : length (proc_cmdline (codes "quiet") image_name uuid_text config_text) < buf_max
unfolding load_line
short = omega arith

parse_line-load_line_example :
    parse_line (fgets buf_max (proc_cmdline (codes "quiet") image_name uuid_text config_text))
    ≡ asked (in_images image_name) uuid_text
parse_line-load_line_example =
    parse_line-load_line (codes "quiet") image_name uuid_text config_text is_handover
      (lacks_of newline (codes "quiet") refl) short

get_cmdline_var-with_config_example :
    get_cmdline_var
      (proc_cmdline
        (with_config (codes "ttyS0") (codes "monoboot/tag/a"))
        image_name
        uuid_text
        config_text)
      (codes "F")
    ≡ value (codes "G=" ++ codes "monoboot/tag/a")
get_cmdline_var-with_config_example =
    get_cmdline_var-with_config (codes "ttyS0") (codes "monoboot/tag/a") image_name uuid_text
      config_text (lacks_of b'F' (codes "ttyS0") refl)
      (lacks_of space (codes "monoboot/tag/a") refl)

succeeds : (main boot_kernel []).0 ≡ success
unfolding main strcmp_eq load_line get_cmdline_var strstr has_prefix var_at copy_value end_offset
    uuid2str print_uuid hex unpack_uuid read_word push_byte hex_bytes make_image make_header fgets
    read_line
succeeds = refl

main-IsBooted_example :
    IsBooted boot_kernel (mounted (codes "proc") (codes "/proc") ∷ []) (main boot_kernel []).1
main-IsBooted_example = main-IsBooted boot_kernel [] succeeds

-- The image after the walk, in a trace without events.
abbrev end : Trace
end = (set_loop boot_kernel loop_dev (codes "/images/a") (header_size + length kernel) []).1

offset_read : (decode_linuxrc image_text).rootfs_offset ≡ 23
unfolding decode_linuxrc make_image make_header field_at le_word le_bytes
offset_read = refl

reaches :
    end
    ≡ (set_loop boot_kernel loop_dev
        (codes "/images/a")
        (decode_linuxrc image_text).rootfs_offset
        []).1
reaches = rw offset_read

long_enough : 16 ≤ length image_text
unfolding make_image make_header le_bytes
long_enough = omega arith

contents : boot_kernel.file [] (codes "/images/a") ≡ some image_text
unfolding strcmp_eq
contents = refl

is_set : SetLoopEnds (codes "/images/a") (decode_linuxrc image_text).rootfs_offset [] end
unfolding set_loop lo_offset
is_set = rw offset_read (inl refl)

abbrev is_attached : IsAttached boot_kernel (codes "/images/a") [] end
is_attached = record {
  before = [];
  since = ([], refl);
  text = image_text;
  there = refl;
  contents = contents;
  header_read = long_enough;
  set_up = reaches;
  ends = is_set;
}

IsAttached-make_image_example :
    end
    ≡ (set_loop boot_kernel loop_dev
        (codes "/images/a")
        (header_size + length kernel)
        is_attached.before).1
IsAttached-make_image_example =
    IsAttached-make_image boot_kernel (codes "/images/a") [] end is_attached 1 0 kernel (4 ∷ 5 ∷ [])
      (6 ∷ []) refl (omega arith)

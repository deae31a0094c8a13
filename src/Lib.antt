-- ===== src/Lib.antt =====
-- A model of monoimage: boot images in one file, the boot loader that chooses and starts one, and
-- the programs that find the image's root filesystem after the start.
--
-- The programs, in the order in which a boot runs them:
--   monoboot (monoboot/) reads mb.conf, chooses an image by what the last boot left there, saves the
--   configuration, and runs kexec twice, to load the kernel and to start it.
--   kexec (kexec-tools/kexec/) reads the image. Its monoimage loader finds the devices that hold the
--   image and the configuration, writes the kernel's command line, and hands kernel and ramdisk to the
--   bzImage loader, which places them in memory through add_buffer.
--   linuxrc (linuxrc/linuxrc.c) runs in the new ramdisk: it reads the command line, finds the device by
--   its identifier, and attaches the root filesystem in the image to a loop device.
--   monoinit (monoboot/monoinit.c) runs as init of the image: it notes the image as booted.
--
-- The files:
--   Prelude: shared notation, lists over the native numbers, texts as lists of bytes, bit
--   operations.
--   CStr: strncmp, strcmp, strstr on texts, which hold no NUL; a text stands for the bytes up to it.
--   Cmdline: get_cmdline_var of linuxrc/linuxrc.c (monoinit.c has a copy), fgets, and the line that
--   monoimage_load prints. Cmdline/Handover and Cmdline/Absent read such a line back.
--   Uuid: is_null_uuid, unpack_uuid, uuid_to_str and uuid2str of linuxrc/linuxrc.c.
--   Image: include/monoimage.h, kexec-tools/include/monoimage.h, linuxrc/monoimage.h and
--   utils/makeimage.pl; Image/Load: kexec-tools/kexec/arch/i386/kexec-monoimage.c
--   with ext2_uuid of kexec-tools/util_lib/ext2_uuid.c. Image/Load/Devices is about its walk over
--   /dev.
--   Kexec: valid_memory_range, sort_segments, locate_hole, add_segment and add_buffer of
--   kexec-tools/kexec/kexec.c, one child module for each; slurp_file and slurp_decompress_file in
--   Slurp,
--   my_load in Load, the options and the order of the actions of main in Main. Of
--   kexec-tools/kexec/arch/i386, kexec-x86.c in ArchOptions (arch_process_options), Memory
--   (get_memory_ranges) and Load (arch_compat_trampoline), x86-linux-setup.c in Setup, and
--   kexec-bzImage.c in BzImage (bzImage_load in BzImage/Command). Elf: kexec-elf.c, with the tables
--   of
--   the file in Tables, its notes in Notes and build_elf_info in Info; kexec-elf-exec.c in Exec;
--   arch/i386/kexec-elf-x86.c in X86; the placing of the sections of kexec-elf-rel.c in Rel.
--   Checksum: util_lib/compute_ip_checksum.c, and the block of notes of
--   kexec-elf-boot.c. Purgatory: update_purgatory, and verify_sha256_digest of
--   kexec-tools/purgatory/purgatory.c.
--   Sha256: util_lib/sha256.c of kexec-tools, with a description byte by byte in Sha256/Reference.
--   Os, Confuse: what the monoboot programs use of the kernel, the C library and libconfuse. The
--   functions of libconfuse are an interface with the laws that its manual gives.
--   Monoboot: monoboot_exec.c in Exec, monoboot_util.c in Util, cmd_boot, cmd_write and
--   check_image_tag
--   of monoboot_cmds.c in Commands, its other commands in Show,
--   monoboot.c and get_keypress of monoboot_cli.c in Main.
--   Monoinit: monoinit.c. Linuxrc: linuxrc.c. Gpio: gpio/gpio.c.
--   Examples: the theorems at concrete inputs.
--
-- How the code corresponds to the model. Each C function is a definition of its name, cut into helpers
-- where it is long. State that a program changes outside itself is a trace of events, newest first,
-- and the answers of the system are functions of that trace, so that a theorem holds for every system.
-- A pointer that runs past a text and an array that is overrun are results of their own (undefined,
-- overrun, past_end, faults), where the code can do that; the arrays of monoboot.c and monoboot_cmds.c
-- are taken to be large enough. The array mem_range of locate_hole is one that can be overrun, and
-- Kexec/Hole/Room is about that. Numbers are natural numbers with the wrap-around of 32 bits written
-- out, as on i386. Fuel: sort_loop has as many rounds as there are segments, and Kexec/Sort/Laws is
-- about that number; find_mount, ranges_loop and start_loop have as many as the text has bytes, and
-- every line that is read has at least one; null_loop has one for each byte; the loop of sha256_update
-- has one for each whole block; the walks over ELF notes are given their fuel by the caller, and
-- Kexec/Elf/Walk says when one round for each address is enough; slurp_loop and gz_loop are given
-- their fuel by the caller, and Kexec/Slurp/Whole says how much is enough. What a call of the system
-- answers is a function of what was done before, or of the number of the call.
--
-- Not modelled: messages; memory that runs out (xmalloc); libcli, which is another project's library,
-- and with it the interactive mode; the loaders of other file types and architectures in kexec-tools,
-- the relocations and symbols of kexec-elf-rel.c and the rest of the purgatory, and kdump;
-- cmd_show_run and cmd_show_ver, which only print; add_section, which nothing calls; the scripts that
-- build the filesystems.
pub mod Prelude
pub mod CStr
pub mod Cmdline
pub mod Os
pub mod Confuse
pub mod Monoboot
pub mod Uuid
pub mod Image
pub mod Kexec
pub mod Linuxrc
pub mod Gpio
pub mod Monoinit
pub mod Examples
pub mod Sha256

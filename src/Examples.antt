-- ===== src/Examples.antt =====
-- The theorems at concrete inputs, and runs of the definitions.
mod Kexec
mod Boot
mod Linuxrc
mod Image
mod Load
mod Setup
mod BzImage
mod BzCommand
mod Purgatory
mod Elf
mod ElfX86
mod Checksum
mod Gpio
mod Sha256
mod ElfRel

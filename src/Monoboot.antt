-- ===== src/Monoboot.antt =====
-- monoboot: the boot loader's programs. `Exec` runs children, `Util` reads /proc, `Commands` has the
-- commands of the shell, and `Main` chooses the image.
pub mod Exec
pub mod Util
pub mod Commands
pub mod Show
pub mod Main

-- ===== src/Console.antt =====
-- console.c: the screen, the numbers that cprintf prints, and the line that is edited.
pub mod Screen
pub mod Print
pub mod Digits
pub mod Input
pub mod Ring
pub mod Editing
pub mod Reads
use mutex.Common.{ℕ}

-- `BACKSPACE`, which is no character.
abbrev pub backspace : ℕ
backspace = 0x100

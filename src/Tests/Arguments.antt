-- ===== src/Tests/Arguments.antt =====
-- Arguments of system calls.
use mutex.Common.{ℕ, ◌+◌, ◌<◌, ◌≤◌, ◌≡◌, ◌≢◌, ◌⊎◌, ◌==◌, if◌then◌else◌, refl, none, some}
use mutex.Cstring.{Memory}
use mutex.Proc.{Proc}
use mutex.Syscall.{argint, argstr}
use mutex.Syscall.Laws.{argstr_lem}
use mutex.Tests.Data.{kernel}

-- A process of 8192 bytes whose first argument is 200, where `hi` stands.
abbrev caller : Proc
caller = record (kernel.table 1) { sz = 8192; tf = record (kernel.table 1).tf { esp = 100 } }

abbrev its_memory : Memory
its_memory a = if a == 104 then 200 else if a == 200 then 104 else if a == 201 then 105 else 0

first_argument : argint its_memory caller 0 ≡ some 200
unfolding argint
first_argument = refl

argstr_example :
    ((addr len : ℕ) × (argstr its_memory caller 0 ≡ some (addr, len))
      × (argint its_memory caller 0 ≡ some addr)
      × (addr + len < 8192)
      × (its_memory (addr + len) ≡ 0)
      × ((j : ℕ) → j < len → its_memory (addr + j) ≢ 0))
    ⊎ ((argstr its_memory caller 0 ≡ none)
        × ((argint its_memory caller 0 ≡ none)
            ⊎ ((addr : ℕ) × (argint its_memory caller 0 ≡ some addr)
                × ((a : ℕ) → addr ≤ a → a < 8192 → its_memory a ≢ 0))))
argstr_example = argstr_lem its_memory caller 0

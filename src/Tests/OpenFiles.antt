-- ===== src/Tests/OpenFiles.antt =====
-- Descriptors, and the arguments of exec.
use mutex.Common.{
  ℕ, ◌+◌, ◌≡◌, ◌≢◌, ◌⊎◌, ◌↔◌, ◌<◌, refl, none, some, List, [], ◌∷◌, ◌==◌, if◌then◌else◌, length,
  update, arith, IsFirst,
}
use mutex.Cstring.{Memory}
use mutex.File.{fd_none, fd_pipe, File, Ftable, nfile}
use mutex.Proc.{Proc, nofile}
use mutex.Syscall.{argint, fetchint, fetchstr}
use mutex.Sysfile.Run.{done}
use mutex.Sysfile.Descriptors.{Ptable, set_fd, sys_dup}
use mutex.Sysfile.Dup.{is_free_fd, sys_dup_lem}
use mutex.Sysfile.Fresh.{new_file_lem}
use mutex.Sysfile.Open.{new_file, exec_args, maxarg}
use mutex.Sysfile.Exec.{IsVector, exec_args_lem}
use mutex.File.{set_ref}
use mutex.Tests.Data.{kernel}

-- A process whose first argument is descriptor 1, which stands for file 2.
abbrev caller : Proc
caller = record (kernel.table 1) {
  sz = 8192;
  tf = record (kernel.table 1).tf { esp = 100 };
  ofile = λ fd. if fd == 1 then 3 else 0;
}

abbrev procs : Ptable
procs = update kernel.table 1 caller

abbrev no_file : File
no_file = record { type = fd_none; ref = 0; readable = 0; writable = 0; pipe = 0; ip = 0; off = 0 }

abbrev files : Ftable
files g =
    if g == 2 then record no_file { type = fd_pipe; ref = 1; writable = 1; pipe = 50 } else no_file

abbrev its_memory : Memory
its_memory a = if a == 104 then 1 else 0

its_descriptor : argint its_memory caller 0 ≡ some 1
unfolding argint
its_descriptor = refl

sys_dup_example :
    (((fd : ℕ) → fd < nofile → caller.ofile fd ≢ 0)
      × (sys_dup its_memory procs 1 files ≡ done (none, procs, files)))
    ⊎ ((fd : ℕ) × (t' : Ptable) × (ft' : Ftable) × (sys_dup its_memory procs 1 files
          ≡ done (some fd, t', ft'))
        × IsFirst (is_free_fd caller) nofile fd
        × ((t' 1).ofile fd ≡ 3)
        × ((i : ℕ) → i ≢ fd → (t' 1).ofile i ≡ caller.ofile i)
        × ((ft' 2).ref ≡ 2)
        × ((g : ℕ) → g ≢ 2 → ft' g ≡ files g))
sys_dup_example =
    sys_dup_lem its_memory procs 1 files 1 2 (its_descriptor, omega arith, refl) (omega arith)
      (omega arith)

files_clean : (g : ℕ) → (files g).ref ≡ 0 → (files g).type ≡ fd_none
files_clean g h = ground arith

new_file_example :
    ((g fd : ℕ) × IsFirst (λ h. (files h).ref == 0) nfile g
      × IsFirst (is_free_fd caller) nofile fd
      × (new_file caller files ≡ done (some (g, fd, set_fd caller fd (g + 1)), set_ref files g 1)))
    ⊎ ((((g : ℕ) → g < nfile → (files g).ref ≢ 0) ⊎ ((fd : ℕ) → fd < nofile → caller.ofile fd ≢ 0))
        × (new_file caller files ≡ done (none, files)))
new_file_example = new_file_lem caller files files_clean

-- At 400 there are the pointer 408 and a null pointer, and at 408 the string `a`.
abbrev argument_memory : Memory
argument_memory a = if a == 400 then 152 else if a == 401 then 1 else if a == 408 then 97 else 0

abbrev its_arguments : List ℕ
its_arguments = 408 ∷ []

exec_args_example :
    (exec_args argument_memory caller 400 maxarg 0 ≡ some its_arguments)
    ↔ ((length its_arguments < maxarg) × IsVector argument_memory caller 400 0 its_arguments)
exec_args_example = exec_args_lem argument_memory caller 400 its_arguments

exec_args_run : exec_args argument_memory caller 400 maxarg 0 ≡ some its_arguments
unfolding exec_args fetchint fetchstr
exec_args_run = refl

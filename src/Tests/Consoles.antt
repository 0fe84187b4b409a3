-- ===== src/Tests/Consoles.antt =====
-- The console.
use mutex.Common.{
  ℕ, ◌*◌, ◌≡◌, ◌<◌, ◌≤◌, refl, true, List, [], ◌∷◌, ◌++◌, ◌==◌, if◌then◌else◌, length, ltb, arith,
}
use mutex.Console.Screen.{Screen, cgaputc, cgaputc-bounds}
use mutex.Console.Print.{print_buf, printint, cprintf}
use mutex.Console.Digits.{printint_lem}
use mutex.Ulib.{atoi}
use mutex.Console.Input.{Input, Editor, consoleintr, consoleread}
use mutex.Console.Ring.{Holds}
use mutex.Console.Editing.{Lines, Shows, edited, edit, all_but, consoleintr-Shows}
use mutex.Console.Reads.{Ending, tail, ordinary, comes, stays, readout, consoleread_lem}
use mutex.Proc.{null}
use mutex.Tests.Data.{kernel}

-- A full screen, the cursor at its end.
abbrev full_screen : Screen
full_screen = record { crt = λ i. i; pos = 1919 }

cgaputc-bounds_example :
    ((cgaputc full_screen b'x').pos < 24 * 80)
    × ((i : ℕ) → 24 * 80 ≤ i → (cgaputc full_screen b'x').crt i ≡ i)
cgaputc-bounds_example = cgaputc-bounds full_screen b'x' (omega arith)

abbrev idle : Editor
idle = record { input = record { buf = λ i. 0; r = 0; w = 0; e = 0 }; kernel = kernel; echo = [] }

abbrev no_lines : Lines
no_lines = record { ready = []; line = []; echo = []; kernel = kernel }

idle-Shows : Shows idle no_lines
unfolding all_but
idle-Shows = record {
  ring = record {
    counter = omega arith;
    fits = omega arith;
    written = refl;
    edited = refl;
    stored = tt;
    typed = tt;
  };
  one_line = refl;
  echo = refl;
  kernel = refl;
}

-- The keys `a`, backspace, `b` and return.
abbrev keys : List ℕ
keys = b'a' ∷ 0x08 ∷ b'b' ∷ b'\r' ∷ []

consoleintr-Shows_example : Shows (consoleintr null idle keys) (edited null no_lines keys)
consoleintr-Shows_example = consoleintr-Shows null keys idle no_lines idle-Shows

keys_ready : (edited null no_lines keys).ready ≡ b'b' ∷ b'\n' ∷ []
unfolding edited edit
keys_ready = refl

-- The ready characters `hi`, a newline and `x`, and an empty line.
abbrev some_ready : List ℕ
some_ready = b'h' ∷ b'i' ∷ b'\n' ∷ b'x' ∷ []

abbrev some_input : Input
some_input = record {
  buf = λ i. if i == 0 then b'h' else if i == 1 then b'i' else if i == 2 then b'\n' else b'x';
  r = 0;
  w = 4;
  e = 4;
}

some_input-Holds : Holds some_input some_ready []
some_input-Holds = record {
  counter = omega arith;
  fits = omega arith;
  written = refl;
  edited = refl;
  stored = (refl, (refl, (refl, (refl, tt))));
  typed = tt;
}

consoleread_example :
    (e : Ending) × (bs rest : List ℕ) × (i' : Input) × (some_ready ≡ bs ++ tail e rest)
    × (ordinary bs ≡ true)
    × (comes e (length bs) 10 ≡ true)
    × Holds i' (stays (ltb 0 (length bs)) e rest) []
    × (consoleread null kernel 1 some_input 10 ≡ readout null kernel 1 e bs i')
consoleread_example = consoleread_lem null kernel 1 some_input 10 some_ready [] some_input-Holds

-- The pattern of -42.
printint_example :
    (length (print_buf 0xffff_ffd6 10 1) ≤ 16)
    × (text : List ℕ) × (printint 0xffff_ffd6 10 1 ≡ b'-' ∷ text)
    × (atoi text ≡ 42)
printint_example = printint_lem 0xffff_ffd6 (omega arith)

cprintf_run :
    cprintf
      (λ a. [])
      (λ i. if i == 0 then 0xffff_ffd6 else 255)
      0
      (b'%' ∷ b'd' ∷ b' ' ∷ b'%' ∷ b'x' ∷ b'%' ∷ b'%' ∷ [])
    ≡ b'-' ∷ b'4' ∷ b'2' ∷ b' ' ∷ b'f' ∷ b'f' ∷ b'%' ∷ []
unfolding cprintf
cprintf_run = refl

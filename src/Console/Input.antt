-- ===== src/Console/Input.antt =====
-- consoleintr and consoleread of console.c over the ring `input`. The lock of the ring is held
-- from end to end, but while the reader sleeps; `input_r` is the channel `&input.r`. A
-- count that is read is not negative, and the inode that a reader gives up meanwhile is left out.
use mutex.Common.{
  ℕ, zero, suc, ◌+◌, ◌-◌, ◌%◌, not, ◌&&◌, ◌||◌, List, [], ◌∷◌, ◌++◌, ltb, ◌==◌, if◌then◌else◌,
  update,
}
use mutex.Console.{backspace}
use mutex.Proc.{Chan, Kernel}
use mutex.Proc.Sched.{wakeup, sleep_begin}

abbrev pub input_buf : ℕ
input_buf = 128

-- `C('D')`: the end of the input.
abbrev pub ctrl_d : ℕ
ctrl_d = 4

pub record Input : Type 0 where
  pub buf : ℕ → ℕ
  pub r : ℕ
  pub w : ℕ
  pub e : ℕ

-- The ring, the processes that it wakes, and the arguments of the calls of `consputc`.
pub record Editor : Type 0 where
  pub input : Input
  pub kernel : Kernel
  pub echo : List ℕ

abbrev pub consputc : Editor → ℕ → Editor
consputc ed c = record ed { echo = ed.echo ++ c ∷ [] }

-- `input.e--; consputc(BACKSPACE);`
unfoldable pub erase : Editor → Editor
erase ed =
    consputc
      (record ed { input = record ed.input { e = (ed.input.e + 0xffff_ffff) % 0x1_0000_0000 } })
      backspace

-- `case C('U')`, with as many rounds as the ring has places.
unfoldable pub kill_line : ℕ → Editor → Editor
unfolding erase
kill_line zero ed = ed
kill_line (suc n) ed =
    let rest = kill_line n (erase ed) in
    if not (ed.input.e == ed.input.w)
      && not (ed.input.buf ((ed.input.e + 0xffff_ffff) % 0x1_0000_0000 % input_buf) == b'\n')
    then rest
    else ed

-- `input.buf[input.e++ % INPUT_BUF] = c; consputc(c);`
unfoldable pub enter : Editor → ℕ → Editor
enter ed c =
    consputc
      (record ed {
        input = record ed.input {
          buf = update ed.input.buf (ed.input.e % input_buf) c;
          e = (ed.input.e + 1) % 0x1_0000_0000;
        };
      })
      c

-- The end of the default case: the line is for the readers.
unfoldable pub commit_line : Chan → Editor → Editor
commit_line input_r ed = record ed {
  input = record ed.input { w = ed.input.e };
  kernel = wakeup input_r ed.kernel;
}

abbrev pub to_newline : ℕ → ℕ
to_newline c = if c == b'\r' then b'\n' else c

-- The default case, when there is room.
unfoldable pub type_in : Chan → Editor → ℕ → Editor
unfolding enter commit_line
type_in input_r ed c =
    let d = enter ed (to_newline c) in
    if to_newline c == b'\n'
      || (to_newline c == ctrl_d || d.input.e == (d.input.r + input_buf) % 0x1_0000_0000)
    then commit_line input_r d
    else d

-- One round of the loop of `consoleintr`. `procdump`, at `C('P')`, prints the process table.
unfoldable pub key : Chan → Editor → ℕ → Editor
unfolding kill_line erase type_in
key input_r ed c =
    if c == 0x10
    then ed
    else if c == 0x15
    then kill_line input_buf ed
    else if c == 0x08 || c == 0x7f
    then (if ed.input.e == ed.input.w then ed else erase ed)
    else if not (c == 0)
        && ltb ((ed.input.e + (0x1_0000_0000 - ed.input.r)) % 0x1_0000_0000) input_buf
    then type_in input_r ed c
    else ed

-- `consoleintr`, with the characters that `getc` gives before it gives a negative number.
unfoldable pub consoleintr : Chan → Editor → List ℕ → Editor
unfolding key
consoleintr input_r ed [] = ed
consoleintr input_r ed (c ∷ cs) = consoleintr input_r (key input_r ed c) cs

-- The loop of `consoleread` came to its end, or it found the ring empty.
pub data Stop : Type 0 where
  finished starved : Stop

pub record Copied : Type 0 where
  pub stop : Stop
  pub bytes : List ℕ
  pub input : Input

abbrev pub advance : Input → Input
advance i = record i { r = (i.r + 1) % 0x1_0000_0000 }

abbrev pub back : Input → Input
back i = record i { r = (i.r + 0xffff_ffff) % 0x1_0000_0000 }

abbrev pub copied : Stop → List ℕ → Input → Copied
copied s bs i = record { stop = s; bytes = bs; input = i }

-- `while(n > 0)`, of a call for `target` bytes.
unfoldable pub copy_line : ℕ → ℕ → Input → Copied
copy_line target zero i = copied finished [] i
copy_line target (suc m) i =
    let rest = copy_line target m (advance i) in
    let c = i.buf (i.r % input_buf) in
    if i.r == i.w
    then copied starved [] i
    else if c == ctrl_d
    then copied finished [] (if ltb (suc m) target then back (advance i) else advance i)
    else if c == b'\n'
    then copied finished (c ∷ []) (advance i)
    else copied rest.stop (c ∷ rest.bytes) rest.input

-- `consoleread` gives the bytes; or it fails, since the process was killed; or it sleeps, with the
-- bytes that it has copied so far.
pub data Readout : Type 0 where
  gives : List ℕ → Input → Readout
  fails : Input → Readout
  rests : List ℕ → Input → Kernel → Readout

-- What follows the copying loop, or takes its place when the ring is empty.
abbrev pub returned : Chan → Kernel → ℕ → Copied → Readout
returned input_r k me got = elim got.stop [
  | finished ↦ gives got.bytes got.input
  | starved ↦
      if (k.table me).killed == 0
      then rests got.bytes got.input (sleep_begin input_r k me)
      else fails got.input
]

unfoldable pub consoleread : Chan → Kernel → ℕ → Input → ℕ → Readout
unfolding copy_line
consoleread input_r k me i n = returned input_r k me (copy_line n n i)

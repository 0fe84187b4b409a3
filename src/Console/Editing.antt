-- ===== src/Console/Editing.antt =====
-- consoleintr of console.c edits a line: the ring follows a list of ready characters and a line.
use mathlib.Core.List.{append-nil, append_assoc}
use mutex.Common.{
  ℕ, zero, suc, ◌+◌, ◌-◌, ◌%◌, ◌≤◌, ◌<◌, ◌≡◌, inl, inr, Bool, true, false, not, ◌&&◌, ◌||◌, List,
  [], ◌∷◌, ◌++◌, reverse, ltb, ◌==◌, if◌then◌else◌, refl, ap, arith, length, replicate, Bool-cases,
}
use mutex.Console.{backspace}
use mutex.Console.Input.{
  input_buf, Editor, erase, kill_line, enter, commit_line, type_in, key, consoleintr, to_newline,
  ctrl_d,
}
use mutex.Console.Ring.{Holds, Holds-erase, Holds-enter, Holds-commit_line}
use mutex.Proc.{Chan, Kernel}
use mutex.Proc.Sched.{wakeup}

-- What the user of the console sees: the ready characters, the line with its newest character
-- first, the echo, and the process table.
pub record Lines : Type 0 where
  pub ready : List ℕ
  pub line : List ℕ
  pub echo : List ℕ
  pub kernel : Kernel

abbrev without_last : Lines → Lines
without_last l = elim l.line [
  | [] ↦ l
  | x ∷ xs ↦ record l { line = xs; echo = l.echo ++ backspace ∷ [] }
]

-- A character is added; at the end of a line, or when the ring is full, all of it is ready.
abbrev with_char : Chan → Lines → ℕ → Lines
with_char input_r l c =
    let ends = c == b'\n' || (c == ctrl_d || length l.ready + suc (length l.line) == input_buf) in
    record {
      ready = if ends then l.ready ++ reverse (c ∷ l.line) else l.ready;
      line = if ends then [] else c ∷ l.line;
      echo = l.echo ++ c ∷ [];
      kernel = if ends then wakeup input_r l.kernel else l.kernel;
    }

unfoldable pub edit : Chan → Lines → ℕ → Lines
edit input_r l c =
    if c == 0x10
    then l
    else if c == 0x15
    then record l { line = []; echo = l.echo ++ replicate (length l.line) backspace }
    else if c == 0x08 || c == 0x7f
    then without_last l
    else if not (c == 0) && ltb (length l.ready + length l.line) input_buf
    then with_char input_r l (to_newline c)
    else l

unfoldable pub all_but : ℕ → List ℕ → Bool
all_but c [] = true
all_but c (x ∷ xs) = not (x == c) && all_but c xs

-- The editor is in the state of the lines. The line has no newline.
pub record Shows (ed : Editor) (l : Lines) : Type 0 where
  pub ring : Holds ed.input l.ready l.line
  pub one_line : all_but b'\n' l.line ≡ true
  pub echo : ed.echo ≡ l.echo
  pub kernel : ed.kernel ≡ l.kernel

abbrev shown : List ℕ → List ℕ → List ℕ → Kernel → Lines
shown ready line echo k = record { ready = ready; line = line; echo = echo; kernel = k }

module _ (ready : List ℕ) (k : Kernel) where
  erase-Shows :
      (ed : Editor) (x : ℕ) (xs out : List ℕ)
      → Shows ed (shown ready (x ∷ xs) out k)
      → Shows (erase ed) (shown ready xs (out ++ backspace ∷ []) k)
  unfolding erase all_but
  erase-Shows ed x xs out s = record {
    ring = Holds-erase ed.input x ready xs s.ring;
    one_line = ground (arith, s.one_line);
    echo = ap (λ o. o ++ backspace ∷ []) s.echo;
    kernel = s.kernel;
  }

  empty_line :
      (ed : Editor) (out : List ℕ)
      → Shows ed (shown ready [] out k)
      → (ed.input.e == ed.input.w) ≡ true
  empty_line ed out s = ground (arith, s.ring.written, s.ring.edited)

  full_line :
      (ed : Editor) (x : ℕ) (xs out : List ℕ)
      → Shows ed (shown ready (x ∷ xs) out k)
      → (ed.input.e == ed.input.w) ≡ false
  full_line ed x xs out s =
      ground (arith, s.ring.written, s.ring.edited, s.ring.fits, s.ring.counter)

  last_typed :
      (ed : Editor) (x : ℕ) (xs out : List ℕ)
      → Shows ed (shown ready (x ∷ xs) out k)
      → (ed.input.buf ((ed.input.e + 0xffff_ffff) % 0x1_0000_0000 % input_buf) == b'\n') ≡ false
  unfolding all_but
  last_typed ed x xs out s = rw s.ring.typed.0 (ground (arith, s.one_line))

  -- `C('U')` takes the whole line away.
  kill_line-Shows :
      (n : ℕ) (ed : Editor) (line out : List ℕ)
      → length line ≤ n
      → Shows ed (shown ready line out k)
      → Shows (kill_line n ed) (shown ready [] (out ++ replicate (length line) backspace) k)
  unfolding kill_line
  kill_line-Shows zero ed [] out le s = rw append-nil s
  kill_line-Shows zero ed (x ∷ xs) out le s = absurd (omega arith)
  kill_line-Shows (suc n) ed [] out le s = rw (empty_line ed out s) (rw append-nil s)
  kill_line-Shows (suc n) ed (x ∷ xs) out le s =
      rw (full_line ed x xs out s, last_typed ed x xs out s)
        (rw (append_assoc out (backspace ∷ []) (replicate (length xs) backspace)) at (
          kill_line-Shows n (erase ed) xs (out ++ backspace ∷ []) (omega arith)
            (erase-Shows ed x xs out s)))

  backspace-Shows :
      (ed : Editor) (line out : List ℕ)
      → Shows ed (shown ready line out k)
      → Shows
          (if ed.input.e == ed.input.w then ed else erase ed)
          (without_last (shown ready line out k))
  backspace-Shows ed [] out s = rw (empty_line ed out s) s
  backspace-Shows ed (x ∷ xs) out s = rw (full_line ed x xs out s) (erase-Shows ed x xs out s)

or-left : (a b : Bool) → (a || b) ≡ false → a ≡ false
or-left true b h = h
or-left false b h = refl

module _ (input_r : Chan) (ready line out : List ℕ) (k : Kernel) (ed : Editor) where
  enter-Holds :
      (c : ℕ)
      → Shows ed (shown ready line out k)
      → length ready + length line < input_buf
      → Holds (enter ed c).input ready (c ∷ line)
  unfolding enter
  enter-Holds c s room = Holds-enter ed.input c ready line s.ring room

  -- The test for a full ring.
  full-length :
      (c : ℕ)
      → Shows ed (shown ready line out k)
      → length ready + length line < input_buf
      → ((enter ed c).input.e == ((enter ed c).input.r + input_buf) % 0x1_0000_0000)
        ≡ (length ready + suc (length line) == input_buf)
  unfolding enter
  full-length c s room = ground (arith, s.ring.edited, s.ring.counter)

  commit_line-Shows :
      (c : ℕ)
      → Shows ed (shown ready line out k)
      → length ready + length line < input_buf
      → Shows
          (commit_line input_r (enter ed c))
          (shown (ready ++ reverse (c ∷ line)) [] (out ++ c ∷ []) (wakeup input_r k))
  unfolding commit_line all_but enter
  commit_line-Shows c s room = record {
    ring = Holds-commit_line (enter ed c).input ready (c ∷ line) (enter-Holds c s room);
    one_line = refl;
    echo = ap (λ o. o ++ c ∷ []) s.echo;
    kernel = ap (λ k. wakeup input_r k) s.kernel;
  }

  enter-Shows :
      (c : ℕ)
      → Shows ed (shown ready line out k)
      → length ready + length line < input_buf
      → (c == b'\n') ≡ false
      → Shows (enter ed c) (shown ready (c ∷ line) (out ++ c ∷ []) k)
  unfolding all_but enter
  enter-Shows c s room other = record {
    ring = enter-Holds c s room;
    one_line = rw other s.one_line;
    echo = ap (λ o. o ++ c ∷ []) s.echo;
    kernel = s.kernel;
  }

  type_in-Shows :
      (c : ℕ)
      → Shows ed (shown ready line out k)
      → length ready + length line < input_buf
      → Shows (type_in input_r ed c) (with_char input_r (shown ready line out k) (to_newline c))
  unfolding type_in
  type_in-Shows c s room =
      let d = to_newline c in
      let ends = d == b'\n' || (d == ctrl_d || length ready + suc (length line) == input_buf) in
      rw (full-length d s room) (elim (Bool-cases ends) [
        | inl finishes ↦ rw finishes (commit_line-Shows d s room)
        | inr goes_on ↦ rw goes_on (
            enter-Shows d s room (
              or-left (d == b'\n') (d == ctrl_d || length ready + suc (length line) == input_buf)
                goes_on))
      ])

  -- The room that `consoleintr` tests for.
  room-length :
      Shows ed (shown ready line out k)
      → ltb ((ed.input.e + (0x1_0000_0000 - ed.input.r)) % 0x1_0000_0000) input_buf
        ≡ ltb (length ready + length line) input_buf
  room-length s = ground (arith, s.ring.edited, s.ring.counter, s.ring.fits)

  key-Shows :
      (c : ℕ)
      → Shows ed (shown ready line out k)
      → Shows (key input_r ed c) (edit input_r (shown ready line out k) c)
  unfolding key edit
  key-Shows c s = elim (Bool-cases (c == 0x10)) [
    | inl p ↦ rw p s
    | inr a ↦ elim (Bool-cases (c == 0x15)) [
      | inl u ↦
          rw (a, u) (kill_line-Shows ready k input_buf ed line out (omega (arith, s.ring.fits)) s)
      | inr b ↦ elim (Bool-cases (c == 0x08 || c == 0x7f)) [
        | inl h ↦ rw (a, b, h) (backspace-Shows ready k ed line out s)
        | inr d ↦
            let test = not (c == 0) && ltb (length ready + length line) input_buf in
            rw (a, b, d, room-length s)
              (elim (Bool-cases test) [
                | inl t ↦ rw t (type_in-Shows c s (ground arith))
                | inr f ↦ rw f s
              ])
      ]
    ]
  ]

-- The lines after some characters.
unfoldable pub edited : Chan → Lines → List ℕ → Lines
edited input_r l [] = l
edited input_r l (c ∷ cs) = edited input_r (edit input_r l c) cs

-- `consoleintr` is a line editor. From a ring of 128 places with the ready characters and the line
-- of `l`, whatever characters come, it has those that editing `l` leaves: a character is added
-- while the two have fewer than 128, a return is entered as a newline, backspace takes the last
-- character of the line, control-U the whole line, and a newline, control-D or a full ring makes
-- the line ready and wakes the readers. The echo is the same, and so is the process table.
pub consoleintr-Shows :
    (input_r : Chan) (cs : List ℕ) (ed : Editor) (l : Lines)
    → Shows ed l
    → Shows (consoleintr input_r ed cs) (edited input_r l cs)
unfolding consoleintr edited
consoleintr-Shows input_r [] ed l s = s
consoleintr-Shows input_r (c ∷ cs) ed l s =
    consoleintr-Shows input_r cs (key input_r ed c) (edit input_r l c)
      (key-Shows input_r l.ready l.line l.echo l.kernel ed c s)

-- ===== src/Shell.antt =====
-- sh.c: the tree of a command, and what a call of the parser gives. A command line is its
-- characters before the NUL at `es`; a token is its characters, as `nulterminate` leaves it.
pub mod Lexer
pub mod Parser
pub mod Grammar
pub mod Tokens
pub mod Words
pub mod Texts
pub mod Steps
pub mod Depth
pub mod Complete
pub mod Shorter
pub mod Total
use mutex.Common.{ℕ, List}

-- `struct cmd` and the five records that it heads. The words of `argv` are up to its null pointer.
pub data Cmd : Type 0 where
  execcmd : List (List ℕ) → Cmd
  redircmd : Cmd → List ℕ → ℕ → ℕ → Cmd
  pipecmd : Cmd → Cmd → Cmd
  listcmd : Cmd → Cmd → Cmd
  backcmd : Cmd → Cmd

-- The messages that the parser passes to `panic`, which exits.
pub data Fault : Type 0 where
  syntax leftovers missing_file missing_paren parse_block too_many_args : Fault

-- The value of a call, the exit of the process, or a call that was given too little fuel.
pub data Result {ℓ} (A : Type ℓ) : Type ℓ where
  ok : A → Result A
  dies : Fault → Result A
  spent : Result A

infixl 5 ◌>>=◌
abbrev pub ◌>>=◌ {ℓ κ} : {A : Type ℓ} {B : Type κ} → Result A → (A → Result B) → Result B
ok a >>= f = f a
dies e >>= f = dies e
spent >>= f = spent

-- A tree and the text that is left.
pub record Parsed : Type 0 where
  pub cmd : Cmd
  pub rest : List ℕ

abbrev pub parsed : Cmd → List ℕ → Result Parsed
parsed c s = ok (record { cmd = c; rest = s })

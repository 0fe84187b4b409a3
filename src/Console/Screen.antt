-- ===== src/Console/Screen.antt =====
-- cgaputc and consputc of console.c: the CGA memory with its cursor, and the serial port.
use mutex.Common.{
  ℕ, ◌+◌, ◌-◌, ◌*◌, ◌/◌, ◌%◌, ◌≤◌, ◌<◌, ◌≡◌, ◌&&◌, List, [], ◌∷◌, ltb, leb, ◌==◌, if◌then◌else◌,
  update, arith,
}
use mutex.Console.{backspace}

-- `pos` is the cursor that the two ports of the device hold.
pub record Screen : Type 0 where
  pub crt : ℕ → ℕ
  pub pos : ℕ

-- `memmove(crt, crt+80, sizeof(crt[0])*23*80)` and the `memset` from `crt+pos` to the end of row
-- 23.
unfoldable scroll : (ℕ → ℕ) → ℕ → ℕ → ℕ
scroll crt pos i =
    if leb pos i && ltb i (24 * 80) then 0 else if ltb i (23 * 80) then crt (i + 80) else crt i

-- The word at `i` when the character is written there.
abbrev cell : ℕ → ℕ
cell c = c % 0x100 + 0x700

-- The first branches of `cgaputc`.
unfoldable pub place : Screen → ℕ → Screen
place s c =
    if c == b'\n'
    then record s { pos = s.pos + (80 - s.pos % 80) }
    else if c == backspace
    then record s { pos = if ltb 0 s.pos then s.pos - 1 else s.pos }
    else record { crt = update s.crt s.pos (cell c); pos = s.pos + 1 }

-- `Scroll up.`
unfoldable scroll_up : Screen → Screen
unfolding scroll
scroll_up s =
    if leb 24 (s.pos / 80) then record { crt = scroll s.crt (s.pos - 80); pos = s.pos - 80 } else s

unfoldable pub cgaputc : Screen → ℕ → Screen
unfolding place scroll_up
cgaputc s c = let t = scroll_up (place s c) in record t { crt = update t.crt t.pos (cell b' ') }

-- What `consputc` sends to the serial port, when the machine has not panicked.
abbrev serial : ℕ → List ℕ
serial c = if c == backspace then 8 ∷ b' ' ∷ 8 ∷ [] else c ∷ []

-- `cgaputc` from a cursor on the first 24 rows puts it there again, and no word that it writes is
-- past them.
pub cgaputc-bounds :
    (s : Screen) (c : ℕ)
    → s.pos < 24 * 80
    → ((cgaputc s c).pos < 24 * 80) × ((i : ℕ) → 24 * 80 ≤ i → (cgaputc s c).crt i ≡ s.crt i)
unfolding cgaputc place scroll_up scroll
cgaputc-bounds s c h = (ground arith, λ i le. ground arith)

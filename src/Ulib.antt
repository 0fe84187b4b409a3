-- ===== src/Ulib.antt =====
-- ulib.c: atoi. A string is its characters before the NUL.
use mutex.Common.{ℕ, ◌+◌, ◌-◌, ◌*◌, ◌%◌, ◌&&◌, Bool, List, [], ◌∷◌, leb, if◌then◌else◌}

abbrev pub is_digit : ℕ → Bool
is_digit c = leb b'0' c && leb c b'9'

-- The loop of `atoi` from the value `n` on.
unfoldable pub atoi_from : ℕ → List ℕ → ℕ
atoi_from n [] = n
atoi_from n (c ∷ cs) =
    let rest = atoi_from ((n * 10 + c - b'0') % 0x1_0000_0000) cs in if is_digit c then rest else n

unfoldable pub atoi : List ℕ → ℕ
unfolding atoi_from
atoi s = atoi_from 0 s

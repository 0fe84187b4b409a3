-- ===== src/Tests/Files.antt =====
-- Open files, and regular expressions.
use mutex.Common.{◌≡◌, ◌↔◌, true, [], ◌∷◌, update}
use mutex.File.{fd_none, fd_pipe, File, Ftable}
use mutex.Grep.{match_re}
use mutex.Grep.Meaning.{Matches, match_re_lem}

abbrev no_file : File
no_file = record { type = fd_none; ref = 0; readable = 0; writable = 0; pipe = 0; ip = 0; off = 0 }

-- File 2 is the writing end of a pipe.
abbrev files : Ftable
files =
    update (λ _. no_file) 2 (record no_file { type = fd_pipe; ref = 1; writable = 1; pipe = 50 })

-- The expression `a*b$` and the text `caab`.
match_re_example :
    (match_re (97 ∷ 42 ∷ 98 ∷ 36 ∷ []) (99 ∷ 97 ∷ 97 ∷ 98 ∷ []) ≡ true)
    ↔ Matches (97 ∷ 42 ∷ 98 ∷ 36 ∷ []) (99 ∷ 97 ∷ 97 ∷ 98 ∷ [])
match_re_example = match_re_lem (97 ∷ 42 ∷ 98 ∷ 36 ∷ []) (99 ∷ 97 ∷ 97 ∷ 98 ∷ [])

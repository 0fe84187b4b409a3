-- ===== src/Tests/Shells.antt =====
-- Command lines of the shell.
use mutex.Common.{ℕ, ◌≡◌, ◌≢◌, refl, true, List, [], ◌∷◌}
use mutex.Shell.{execcmd, redircmd, pipecmd, listcmd, backcmd, ok, spent}
use mutex.Shell.Lexer.{strchr}
use mutex.Shell.Parser.{parsecmd, add_arg}
use mutex.Shell.Grammar.{
  output, words, block, alone, into, Line, last, next, Argument, line_text, line_tree, good_line,
  good_arguments, good_redirections, all_plain, redirections_tree, arguments_tree, behind,
}
use mutex.Shell.Complete.{parsecmd-line_text}
use mutex.Shell.Total.{parsecmd-ends}

abbrev just : List ℕ → Argument
just w = record { word = w; redirections = [] }

-- `ls a > f | (wc ; b &)`
abbrev two_jobs : Line
two_jobs =
    last
      (into
        (words [] (
          just (b'l' ∷ b's' ∷ [])
          ∷ record {
            word = b'a' ∷ [];
            redirections = record { way = output; file = b'f' ∷ [] } ∷ [];
          }
          ∷ []))
        (alone (
          block
            (next (alone (words [] (just (b'w' ∷ b'c' ∷ []) ∷ []))) 0
              (last (alone (words [] (just (b'b' ∷ []) ∷ []))) 1))
            [])))
      0

two_jobs_good : good_line two_jobs ≡ true
unfolding good_line strchr good_arguments good_redirections all_plain
two_jobs_good = refl

two_jobs_tree :
    line_tree two_jobs
    ≡ pipecmd
        (redircmd (execcmd ((b'l' ∷ b's' ∷ []) ∷ (b'a' ∷ []) ∷ [])) (b'f' ∷ []) 0x201 1)
        (listcmd (execcmd ((b'w' ∷ b'c' ∷ []) ∷ [])) (backcmd (execcmd ((b'b' ∷ []) ∷ []))))
unfolding line_tree redirections_tree arguments_tree add_arg behind
two_jobs_tree = refl

parsecmd-line_text_example : parsecmd (line_text two_jobs []) ≡ ok (line_tree two_jobs)
parsecmd-line_text_example = parsecmd-line_text two_jobs two_jobs_good

-- `(a >`
parsecmd-ends_example : parsecmd (b'(' ∷ b'a' ∷ b' ' ∷ b'>' ∷ []) ≢ spent
parsecmd-ends_example = parsecmd-ends (b'(' ∷ b'a' ∷ b' ' ∷ b'>' ∷ [])

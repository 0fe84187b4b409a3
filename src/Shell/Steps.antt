-- ===== src/Shell/Steps.antt =====
-- The calls of the parser of sh.c, each from what the calls under it give.
use mutex.Common.{ℕ, suc, List, [], ◌∷◌, ◌≡◌, refl, length}
use mutex.Shell.{Cmd, pipecmd, listcmd, Result, ◌>>=◌, Parsed, parsed}
use mutex.Shell.Lexer.{gettoken, peek, sees, misses}
use mutex.Shell.Parser.{background, parseline, parsepipe, parseexec, parseblock, redirs}

-- One call of each parser, from what the calls under it give.
module _ (n : ℕ) (s : List ℕ) where
  pub parseblock-step :
      (u : List ℕ) {t v : List ℕ} {c : Cmd}
      → peek s (b'(' ∷ []) ≡ sees s
      → (gettoken s).rest ≡ u
      → parseline n u ≡ parsed c t
      → peek t (b')' ∷ []) ≡ sees t
      → (gettoken t).rest ≡ v
      → parseblock (suc n) s ≡ redirs c v
  unfolding parseblock
  parseblock-step u e1 e2 e3 e4 e5 = rw (parseblock, e1, e2, e3, ◌>>=◌, e4, e5) refl

  pub parseexec-step :
      {r : Result Parsed}
      → peek s (b'(' ∷ []) ≡ sees s
      → parseblock n s ≡ r
      → parseexec (suc n) s ≡ r
  unfolding parseexec
  parseexec-step e1 e2 = rw (parseexec, e1, e2) refl

  pub parsepipe-ends :
      {t : List ℕ} {c : Cmd}
      → parseexec n s ≡ parsed c t
      → peek t (b'|' ∷ []) ≡ misses t
      → parsepipe (suc n) s ≡ parsed c t
  unfolding parsepipe
  parsepipe-ends e1 e2 = rw (e1, ◌>>=◌, e2) refl

  pub parsepipe-step :
      (u : List ℕ) {t v : List ℕ} {c d : Cmd}
      → parseexec n s ≡ parsed c t
      → peek t (b'|' ∷ []) ≡ sees t
      → (gettoken t).rest ≡ u
      → parsepipe n u ≡ parsed d v
      → parsepipe (suc n) s ≡ parsed (pipecmd c d) v
  unfolding parsepipe
  parsepipe-step u e1 e2 e3 e4 = rw (e1, ◌>>=◌, e2, e3, e4) refl

  pub parseline-ends :
      {t u : List ℕ} {c d : Cmd}
      → parsepipe n s ≡ parsed c t
      → background (suc (length t)) c t ≡ parsed d u
      → peek u (b';' ∷ []) ≡ misses u
      → parseline (suc n) s ≡ parsed d u
  unfolding parseline
  parseline-ends e1 e2 e3 = rw (e1, ◌>>=◌, e2, ◌>>=◌, e3) refl

  pub parseline-step :
      (w : List ℕ) {t u v : List ℕ} {b c d : Cmd}
      → parsepipe n s ≡ parsed b t
      → background (suc (length t)) b t ≡ parsed c u
      → peek u (b';' ∷ []) ≡ sees u
      → (gettoken u).rest ≡ w
      → parseline n w ≡ parsed d v
      → parseline (suc n) s ≡ parsed (listcmd c d) v
  unfolding parseline
  parseline-step w e1 e2 e3 e4 e5 = rw (e1, ◌>>=◌, e2, ◌>>=◌, e3, e4, e5) refl

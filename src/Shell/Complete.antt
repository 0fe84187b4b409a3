-- ===== src/Shell/Complete.antt =====
-- The parser of sh.c reads every line of the grammar and gives its tree.
use mutex.Common.{
  ℕ, zero, suc, ◌+◌, ◌*◌, ◌≤◌, true, false, ◌&&◌, List, [], ◌∷◌, ◌≡◌, refl, ap, ◌∙◌, length, ltb,
  arith, ltb→lt,
}
use mutex.Shell.{ok, ◌>>=◌, parsed}
use mutex.Shell.Lexer.{strchr, skip_space, gettoken, peek, misses, starts}
use mutex.Shell.Parser.{maxargs, parseline, parsepipe, parseexec, parsecmd}
use mutex.Shell.Grammar.{
  Redirection, Argument, Simple, words, block, Chain, alone, into, Line, last, next,
  redirections_text, arguments_text, ands, simple_text, chain_text, line_text, simple_tree,
  chain_tree, line_tree, good_redirections, good_arguments, good_simple, good_chain, good_line,
}
use mutex.Shell.Tokens.{
  IsSolid, and-left, and-right, gettoken-single, peek-sees, peek-misses, ends, stops, chain_stops,
  line_stops, ends-IsSolid, chain-ends, line-ends, ends-no_redirection, chain-no_pipe,
}
use mutex.Shell.Words.{
  redirections_text-IsSolid, arguments_text-IsSolid, redirs-text, simple-words, words-no_paren,
}
use mutex.Shell.Depth.{depth_simple, depth_chain, depth_line, depth-line_text}
use mutex.Shell.Steps.{
  parseblock-step, parseexec-step, parsepipe-ends, parsepipe-step, parseline-ends, parseline-step,
}
use mutex.Shell.Texts.{
  length-ands, ands-ends, semicolon_ends, pipe_ends, paren_ends, paren-IsSolid, chain_text-IsSolid,
  line_text-IsSolid, background_lem,
}

-- One symbol and a text behind it.
gettoken-open :
    (t : List ℕ)
    → IsSolid t
    → gettoken (b'(' ∷ t) ≡ record { ret = b'('; word = b'(' ∷ []; rest = t }
unfolding strchr
gettoken-open t h = gettoken-single b'(' t refl refl h

gettoken-close :
    (t : List ℕ)
    → IsSolid t
    → gettoken (b')' ∷ t) ≡ record { ret = b')'; word = b')' ∷ []; rest = t }
unfolding strchr
gettoken-close t h = gettoken-single b')' t refl refl h

gettoken-pipe :
    (t : List ℕ)
    → IsSolid t
    → gettoken (b'|' ∷ t) ≡ record { ret = b'|'; word = b'|' ∷ []; rest = t }
unfolding strchr
gettoken-pipe t h = gettoken-single b'|' t refl refl h

gettoken-semicolon :
    (t : List ℕ)
    → IsSolid t
    → gettoken (b';' ∷ t) ≡ record { ret = b';'; word = b';' ∷ []; rest = t }
unfolding strchr
gettoken-semicolon t h = gettoken-single b';' t refl refl h

starts_self : (c : ℕ) (t : List ℕ) → starts (c ∷ []) (c ∷ t) ≡ true
unfolding starts strchr
starts_self c t = ground arith

-- Each is read, with its depth as fuel or more, in front of any text that it ends at.
SimpleReads : Simple → Type 0
SimpleReads s =
    (n : ℕ) (t : List ℕ)
    → ends stops t ≡ true
    → depth_simple s ≤ n
    → parseexec n (simple_text s t) ≡ parsed (simple_tree s) t

ChainReads : Chain → Type 0
ChainReads c =
    (n : ℕ) (t : List ℕ)
    → ends chain_stops t ≡ true
    → depth_chain c ≤ n
    → parsepipe n (chain_text c t) ≡ parsed (chain_tree c) t

LineReads : Line → Type 0
LineReads l =
    (n : ℕ) (t : List ℕ)
    → ends line_stops t ≡ true
    → depth_line l ≤ n
    → parseline n (line_text l t) ≡ parsed (line_tree l) t

words-SimpleReads :
    (rs : List Redirection) (xs : List Argument)
    → good_simple (words rs xs) ≡ true
    → SimpleReads (words rs xs)
unfolding SimpleReads simple_text simple_tree good_simple depth_simple parseexec
words-SimpleReads rs xs g zero t e d = absurd (omega arith)
words-SimpleReads rs xs g (suc n) t e d =
    let u = redirections_text rs (arguments_text xs t) in
    let first = and-left (good_redirections rs) (good_arguments xs && ltb (length xs) maxargs) g in
    let both = and-right (good_redirections rs) (good_arguments xs && ltb (length xs) maxargs) g in
    let second = and-left (good_arguments xs) (ltb (length xs) maxargs) both in
    let few =
      ltb→lt (length xs) maxargs (and-right (good_arguments xs) (ltb (length xs) maxargs) both) in
    let solid =
      redirections_text-IsSolid rs (arguments_text xs t) (arguments_text-IsSolid xs t second e) in
    rw (peek-misses u (b'(' ∷ []) solid (words-no_paren rs xs t second e), parseexec)
      (simple-words rs xs t first second few e)

block-SimpleReads :
    (l : Line) (rs : List Redirection)
    → good_simple (block l rs) ≡ true
    → LineReads l
    → SimpleReads (block l rs)
unfolding SimpleReads LineReads simple_text simple_tree good_simple depth_simple
block-SimpleReads l rs g ih zero t e d = absurd (omega arith)
block-SimpleReads l rs g ih (suc zero) t e d = absurd (omega arith)
block-SimpleReads l rs g ih (suc (suc n)) t e d =
    let behind_line = redirections_text rs t in
    let u = line_text l (b')' ∷ behind_line) in
    let good = and-left (good_line l) (good_redirections rs) g in
    let close = paren_ends behind_line in
    let open_seen = peek-sees (b'(' ∷ u) (b'(' ∷ []) (paren-IsSolid u) (starts_self b'(' u) in
    let solid = redirections_text-IsSolid rs t (ends-IsSolid t e) in
    let close_solid =
      ends-IsSolid (b')' ∷ behind_line)
        (chain-ends (b')' ∷ behind_line) (line-ends (b')' ∷ behind_line) close)) in
    parseexec-step (suc n) (b'(' ∷ u) open_seen (
      parseblock-step n (b'(' ∷ u) u open_seen
        (ap (λ k. k.rest) (gettoken-open u (line_text-IsSolid l (b')' ∷ behind_line) good close)))
        (ih n (b')' ∷ behind_line) close (omega arith))
        (peek-sees (b')' ∷ behind_line) (b')' ∷ []) close_solid (starts_self b')' behind_line))
        (ap (λ k. k.rest) (gettoken-close behind_line solid)))
    ∙ (redirs-text rs (line_tree l) t (and-right (good_line l) (good_redirections rs) g)
        (ends-IsSolid t e) (ends-no_redirection t e))

alone-ChainReads : (s : Simple) → SimpleReads s → ChainReads (alone s)
unfolding ChainReads SimpleReads chain_text chain_tree depth_chain
alone-ChainReads s ih zero t e d = absurd (omega arith)
alone-ChainReads s ih (suc n) t e d =
    let stop = chain-ends t e in
    parsepipe-ends n (simple_text s t) (ih n t stop (omega arith))
      (peek-misses t (b'|' ∷ []) (ends-IsSolid t stop) (chain-no_pipe t e))

into-ChainReads :
    (s : Simple) (c : Chain)
    → good_chain c ≡ true
    → SimpleReads s
    → ChainReads c
    → ChainReads (into s c)
unfolding ChainReads SimpleReads chain_text chain_tree depth_chain
into-ChainReads s c good one more zero t e d = absurd (omega arith)
into-ChainReads s c good one more (suc n) t e d =
    let u = chain_text c t in
    let stop = pipe_ends u in
    parsepipe-step n (simple_text s (b'|' ∷ u)) u (one n (b'|' ∷ u) stop (omega arith))
      (peek-sees (b'|' ∷ u) (b'|' ∷ []) (ends-IsSolid (b'|' ∷ u) stop) (starts_self b'|' u))
      (ap (λ k. k.rest) (gettoken-pipe u (chain_text-IsSolid c t good e)))
      (more n t e (omega arith))

line_end-starts :
    (t : List ℕ)
    → ends line_stops t ≡ true
    → (starts (b'&' ∷ []) t ≡ false) × (starts (b';' ∷ []) t ≡ false)
unfolding starts strchr
line_end-starts [] e = (refl, refl)
line_end-starts (c ∷ t) e = (ground arith, ground arith)

last-LineReads : (c : Chain) (k : ℕ) → ChainReads c → LineReads (last c k)
unfolding LineReads ChainReads line_text line_tree depth_line
last-LineReads c k ih zero t e d = absurd (omega arith)
last-LineReads c k ih (suc n) t e d =
    let u = ands k t in
    let stop = line-ends t e in
    let (no_and, no_next) = line_end-starts t e in
    parseline-ends n (chain_text c u) (ih n u (ands-ends k t stop) (omega arith))
      (background_lem k (suc (length u)) (chain_tree c) t stop no_and
        (omega (arith, length-ands k t)))
      (peek-misses t (b';' ∷ []) (ends-IsSolid t (chain-ends t stop)) no_next)

semicolon-no_and : (t : List ℕ) → starts (b'&' ∷ []) (b';' ∷ t) ≡ false
unfolding starts strchr
semicolon-no_and t = refl

next-LineReads :
    (c : Chain) (k : ℕ) (l : Line)
    → good_line l ≡ true
    → ChainReads c
    → LineReads l
    → LineReads (next c k l)
unfolding LineReads ChainReads line_text line_tree depth_line
next-LineReads c k l good ih more zero t e d = absurd (omega arith)
next-LineReads c k l good ih more (suc n) t e d =
    let w = line_text l t in
    let stop = semicolon_ends w in
    let u = ands k (b';' ∷ w) in
    parseline-step n (chain_text c u) w (ih n u (ands-ends k (b';' ∷ w) stop) (omega arith))
      (background_lem k (suc (length u)) (chain_tree c) (b';' ∷ w) stop (semicolon-no_and w)
        (omega (arith, length-ands k (b';' ∷ w))))
      (peek-sees (b';' ∷ w) (b';' ∷ []) (ends-IsSolid (b';' ∷ w) (chain-ends (b';' ∷ w) stop))
        (starts_self b';' w))
      (ap (λ x. x.rest) (gettoken-semicolon w (line_text-IsSolid l t good e)))
      (more n t e (omega arith))

mutual
  unfolding good_simple good_chain good_line

  simple-SimpleReads : (s : Simple) → good_simple s ≡ true → SimpleReads s
  simple-SimpleReads (words rs xs) g = words-SimpleReads rs xs g
  simple-SimpleReads (block l rs) g =
      block-SimpleReads l rs g (line-LineReads l (and-left (good_line l) (good_redirections rs) g))

  chain-ChainReads : (c : Chain) → good_chain c ≡ true → ChainReads c
  chain-ChainReads (alone s) g = alone-ChainReads s (simple-SimpleReads s g)
  chain-ChainReads (into s c) g =
      let good = and-right (good_simple s) (good_chain c) g in
      into-ChainReads s c good (simple-SimpleReads s (and-left (good_simple s) (good_chain c) g))
        (chain-ChainReads c good)

  line-LineReads : (l : Line) → good_line l ≡ true → LineReads l
  line-LineReads (last c k) g = last-LineReads c k (chain-ChainReads c g)
  line-LineReads (next c k l) g =
      let good = and-right (good_chain c) (good_line l) g in
      next-LineReads c k l good (chain-ChainReads c (and-left (good_chain c) (good_line l) g))
        (line-LineReads l good)

peek-end : (toks : List ℕ) → peek [] toks ≡ misses []
unfolding peek skip_space starts
peek-end toks = refl

-- `parsecmd` reads the text of every line of the grammar whose words are not empty and have no
-- white space and no symbol, with fewer than `MAXARGS` words in a simple command: it gives the
-- tree of the line, with every pipe, list, block, background mark and redirection in its place,
-- and it neither panics nor runs out of fuel.
pub parsecmd-line_text :
    (l : Line) → good_line l ≡ true → parsecmd (line_text l []) ≡ ok (line_tree l)
unfolding parsecmd LineReads
parsecmd-line_text l good =
    let s = line_text l [] in
    let enough : depth_line l ≤ 4 * length s + 4 = omega (arith, depth-line_text l []) in
    rw (line-LineReads l good (4 * length s + 4) [] refl enough, ◌>>=◌, peek-end []) refl

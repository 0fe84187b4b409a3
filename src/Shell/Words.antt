-- ===== src/Shell/Words.antt =====
-- The loops of parseredirs and parseexec in sh.c over printed redirections and words.
use mutex.Common.{
  ℕ, zero, suc, ◌+◌, ◌≤◌, ◌<◌, true, false, ◌&&◌, List, [], ◌∷◌, ◌≡◌, refl, length, leb, arith,
}
use mutex.Shell.{Cmd, execcmd, parsed}
use mutex.Shell.Lexer.{strchr, symbols, token_at, is_plain, skip_space, gettoken, starts}
use mutex.Shell.Parser.{maxargs, redirect, parseredirs, redirs, add_arg, arguments, simple}
use mutex.Shell.Grammar.{
  Way, input, output, append, Redirection, Argument, sign, word_text, redirections_text,
  arguments_text, way_tree, redirections_tree, arguments_tree, is_word, all_plain,
  good_redirections, good_arguments,
}
use mutex.Shell.Tokens.{
  IsSolid, and-left, and-right, word_text-IsSolid, plain-not_symbol, gettoken-word_text, peek-sees,
  peek-misses, ends, stops, ends-IsSolid, ends-no_redirection, way_code, sign-IsSolid,
  gettoken-sign, sign-starts,
}

redirect-way : (c : Cmd) (y : Way) (f : List ℕ) → redirect c (way_code y) f ≡ way_tree c y f
unfolding redirect
redirect-way c input f = refl
redirect-way c output f = refl
redirect-way c append f = refl

pub redirections_text-IsSolid :
    (rs : List Redirection) (t : List ℕ) → IsSolid t → IsSolid (redirections_text rs t)
unfolding redirections_text
redirections_text-IsSolid [] t h = h
redirections_text-IsSolid (r ∷ rs) t h =
    sign-IsSolid r.way (word_text r.file (redirections_text rs t))

length-sign : (y : Way) (t : List ℕ) → suc (length t) ≤ length (sign y t)
length-sign input t = omega arith
length-sign output t = omega arith
length-sign append t = omega arith

length-word_text : (w t : List ℕ) → suc (length t) ≤ length (word_text w t)
unfolding word_text
length-word_text [] t = omega arith
length-word_text (c ∷ cs) t = omega (arith, length-word_text cs t)

pub length-redirections_text :
    (rs : List Redirection) (t : List ℕ) → length rs + length t ≤ length (redirections_text rs t)
unfolding redirections_text
length-redirections_text [] t = omega arith
length-redirections_text (r ∷ rs) t =
    let rest = redirections_text rs t in
    omega (
      arith,
      length-redirections_text rs t,
      length-sign r.way (word_text r.file rest),
      length-word_text r.file rest,
    )

parseredirs-text :
    (rs : List Redirection) (n : ℕ) (c : Cmd) (t : List ℕ)
    → good_redirections rs ≡ true
    → IsSolid t
    → starts (b'<' ∷ b'>' ∷ []) t ≡ false
    → length rs < n
    → parseredirs n c (redirections_text rs t) ≡ parsed (redirections_tree c rs) t
unfolding redirections_text parseredirs redirections_tree good_redirections
parseredirs-text rs zero c t g solid h short = absurd (omega arith)
parseredirs-text [] (suc n) c t g solid h short =
    rw (peek-misses t (b'<' ∷ b'>' ∷ []) solid h, parseredirs) refl
parseredirs-text (r ∷ rs) (suc n) c t g solid h short =
    let rest = redirections_text rs t in
    let word = and-left (is_word r.file) (good_redirections rs) g in
    let (code, behind_sign) = gettoken-sign r.way r.file rest word in
    let file = gettoken-word_text r.file rest word (redirections_text-IsSolid rs t solid) in
    rw
      (
        peek-sees (sign r.way (word_text r.file rest)) (b'<' ∷ b'>' ∷ [])
            (sign-IsSolid r.way (word_text r.file rest))
            (sign-starts r.way (word_text r.file rest)),
        parseredirs,
        behind_sign,
        file,
        code,
        behind_sign,
        file,
        redirect-way c r.way r.file,
      )
      (parseredirs-text rs n (way_tree c r.way r.file) t
        (and-right (is_word r.file) (good_redirections rs) g) solid h (omega arith))

pub redirs-text :
    (rs : List Redirection) (c : Cmd) (t : List ℕ)
    → good_redirections rs ≡ true
    → IsSolid t
    → starts (b'<' ∷ b'>' ∷ []) t ≡ false
    → redirs c (redirections_text rs t) ≡ parsed (redirections_tree c rs) t
unfolding redirs
redirs-text rs c t g solid h =
    parseredirs-text rs (suc (length (redirections_text rs t))) c t g solid h
      (omega (arith, length-redirections_text rs t))

pub arguments_text-IsSolid :
    (xs : List Argument) (t : List ℕ)
    → good_arguments xs ≡ true
    → ends stops t ≡ true
    → IsSolid (arguments_text xs t)
unfolding arguments_text good_arguments
arguments_text-IsSolid [] t g h = ends-IsSolid t h
arguments_text-IsSolid (a ∷ xs) t g h =
    word_text-IsSolid a.word (redirections_text a.redirections (arguments_text xs t))
      (and-left (is_word a.word) (good_redirections a.redirections && good_arguments xs) g)

word_text-starts :
    (w t toks : List ℕ)
    → is_word w ≡ true
    → ((c : ℕ) → strchr symbols c ≡ false → strchr toks c ≡ false)
    → starts toks (word_text w t) ≡ false
unfolding word_text starts
word_text-starts [] t toks g h = absurd (ground arith)
word_text-starts (c ∷ cs) t toks g h =
    h c (plain-not_symbol c (and-left (is_plain c) (all_plain cs) g))

no_redirection : (c : ℕ) → strchr symbols c ≡ false → strchr (b'<' ∷ b'>' ∷ []) c ≡ false
unfolding strchr
no_redirection c h = ground arith

no_stop : (c : ℕ) → strchr symbols c ≡ false → strchr stops c ≡ false
unfolding strchr
no_stop c h = ground arith

no_paren : (c : ℕ) → strchr symbols c ≡ false → strchr (b'(' ∷ []) c ≡ false
unfolding strchr
no_paren c h = ground arith

arguments_text-no_redirection :
    (xs : List Argument) (t : List ℕ)
    → good_arguments xs ≡ true
    → ends stops t ≡ true
    → starts (b'<' ∷ b'>' ∷ []) (arguments_text xs t) ≡ false
unfolding arguments_text good_arguments
arguments_text-no_redirection [] t g h = ends-no_redirection t h
arguments_text-no_redirection (a ∷ xs) t g h =
    word_text-starts a.word (redirections_text a.redirections (arguments_text xs t))
      (b'<' ∷ b'>' ∷ [])
      (and-left (is_word a.word) (good_redirections a.redirections && good_arguments xs) g)
      no_redirection

-- At the end of the arguments.
arguments-end :
    (n argc : ℕ) (c : Cmd) (t : List ℕ)
    → ends stops t ≡ true
    → arguments (suc n) argc c t ≡ parsed c t
unfolding arguments starts gettoken token_at skip_space
arguments-end n argc c [] h = rw (peek-misses [] stops (ends-IsSolid [] refl) refl, arguments) refl
arguments-end n argc c (x ∷ t) h =
    rw (peek-sees (x ∷ t) stops (ends-IsSolid (x ∷ t) h) h, arguments) refl

arguments_lem :
    (xs : List Argument) (n argc : ℕ) (c : Cmd) (t : List ℕ)
    → good_arguments xs ≡ true
    → ends stops t ≡ true
    → argc + length xs < maxargs
    → length xs < n
    → arguments n argc c (arguments_text xs t) ≡ parsed (arguments_tree c xs) t
unfolding arguments arguments_text arguments_tree good_arguments
arguments_lem xs zero argc c t g h few short = absurd (omega arith)
arguments_lem [] (suc n) argc c t g h few short = arguments-end n argc c t h
arguments_lem (a ∷ xs) (suc n) argc c t g h few short =
    let tail = arguments_text xs t in
    let rest = redirections_text a.redirections tail in
    let word =
      and-left (is_word a.word) (good_redirections a.redirections && good_arguments xs) g in
    let g2 = and-right (is_word a.word) (good_redirections a.redirections && good_arguments xs) g in
    let good = and-left (good_redirections a.redirections) (good_arguments xs) g2 in
    let later = and-right (good_redirections a.redirections) (good_arguments xs) g2 in
    let solid = arguments_text-IsSolid xs t later h in
    let room : leb maxargs (argc + 1) ≡ false = ground arith in
    let token =
      gettoken-word_text a.word rest word (redirections_text-IsSolid a.redirections tail solid) in
    rw
      (
        peek-misses (word_text a.word rest) stops (word_text-IsSolid a.word rest word)
            (word_text-starts a.word rest stops word no_stop),
        arguments,
        token,
        room,
        token,
        redirs-text a.redirections (add_arg c a.word) tail good solid
            (arguments_text-no_redirection xs t later h),
      )
      (arguments_lem xs n (argc + 1) (redirections_tree (add_arg c a.word) a.redirections) t later h
        (omega arith) (omega arith))

pub length-arguments_text :
    (xs : List Argument) (t : List ℕ) → length xs + length t ≤ length (arguments_text xs t)
unfolding arguments_text
length-arguments_text [] t = omega arith
length-arguments_text (a ∷ xs) t =
    let tail = arguments_text xs t in
    let rest = redirections_text a.redirections tail in
    omega (
      arith,
      length-arguments_text xs t,
      length-redirections_text a.redirections tail,
      length-word_text a.word rest,
    )

-- The whole of `parseexec` behind its test for a block.
pub simple-words :
    (rs : List Redirection) (xs : List Argument) (t : List ℕ)
    → good_redirections rs ≡ true
    → good_arguments xs ≡ true
    → length xs < maxargs
    → ends stops t ≡ true
    → simple (redirections_text rs (arguments_text xs t))
      ≡ parsed (arguments_tree (redirections_tree (execcmd []) rs) xs) t
unfolding simple
simple-words rs xs t g h few e =
    let tail = arguments_text xs t in
    rw
      (redirs-text rs (execcmd []) tail g (arguments_text-IsSolid xs t h e)
        (arguments_text-no_redirection xs t h e))
      (arguments_lem xs (suc (length tail)) 0 (redirections_tree (execcmd []) rs) t h e
        (omega arith) (omega (arith, length-arguments_text xs t)))

sign-no_paren : (y : Way) (t : List ℕ) → starts (b'(' ∷ []) (sign y t) ≡ false
unfolding starts strchr
sign-no_paren input t = refl
sign-no_paren output t = refl
sign-no_paren append t = refl

ends-no_paren : (t : List ℕ) → ends stops t ≡ true → starts (b'(' ∷ []) t ≡ false
unfolding starts strchr
ends-no_paren [] h = refl
ends-no_paren (c ∷ cs) h = ground arith

-- The words of a simple command do not begin a block.
pub words-no_paren :
    (rs : List Redirection) (xs : List Argument) (t : List ℕ)
    → good_arguments xs ≡ true
    → ends stops t ≡ true
    → starts (b'(' ∷ []) (redirections_text rs (arguments_text xs t)) ≡ false
unfolding redirections_text arguments_text good_arguments
words-no_paren [] [] t g h = ends-no_paren t h
words-no_paren [] (a ∷ xs) t g h =
    word_text-starts a.word (redirections_text a.redirections (arguments_text xs t)) (b'(' ∷ [])
      (and-left (is_word a.word) (good_redirections a.redirections && good_arguments xs) g) no_paren
words-no_paren (r ∷ rs) xs t g h =
    sign-no_paren r.way (word_text r.file (redirections_text rs (arguments_text xs t)))

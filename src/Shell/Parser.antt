-- ===== src/Shell/Parser.antt =====
-- The recursive-descent parser of sh.c, from parsecmd to parseexec. Fuel bounds the depth of the
-- calls and the rounds of the loops.
use mutex.Common.{
  ℕ, zero, suc, ◌+◌, ◌*◌, true, false, List, [], ◌∷◌, ◌++◌, leb, ◌==◌, if◌then◌else◌, length,
}
use mutex.Shell.{
  Cmd, execcmd, redircmd, pipecmd, listcmd, backcmd, syntax, leftovers, missing_file, missing_paren,
  parse_block, too_many_args, Result, ok, dies, spent, ◌>>=◌, Parsed, parsed,
}
use mutex.Shell.Lexer.{gettoken, peek, sees, misses, rest_of}

abbrev pub maxargs : ℕ
maxargs = 10

-- `O_RDONLY` and `O_WRONLY|O_CREATE`
abbrev pub rdonly : ℕ
rdonly = 0

abbrev pub wronly_create : ℕ
wronly_create = 0x201

-- The switch of `parseredirs` on the token of the redirection.
unfoldable pub redirect : Cmd → ℕ → List ℕ → Cmd
redirect cmd tok file =
    if tok == b'<'
    then redircmd cmd file rdonly 0
    else if tok == b'>'
    then redircmd cmd file wronly_create 1
    else if tok == b'+'
    then redircmd cmd file wronly_create 1
    else cmd

unfoldable pub parseredirs : ℕ → Cmd → List ℕ → Result Parsed
parseredirs zero cmd s = spent
parseredirs (suc n) cmd s = elim (peek s (b'<' ∷ b'>' ∷ [])) [
  | sees u ↦
      let t = gettoken u in
      let f = gettoken t.rest in
      elim (f.ret == b'a') [
        | true ↦ parseredirs n (redirect cmd t.ret f.word) f.rest
        | false ↦ dies missing_file
      ]
  | misses u ↦ parsed cmd u
]

-- The loop with as much fuel as the text can need.
unfoldable pub redirs : Cmd → List ℕ → Result Parsed
redirs cmd s = parseredirs (suc (length s)) cmd s

-- `cmd->argv[argc] = q;`, where `cmd` is the record that `execcmd` made, under the redirections
-- that `ret` has got since.
unfoldable pub add_arg : Cmd → List ℕ → Cmd
add_arg (execcmd ws) w = execcmd (ws ++ w ∷ [])
add_arg (redircmd c f m d) w = redircmd (add_arg c w) f m d
add_arg (pipecmd l r) w = pipecmd l r
add_arg (listcmd l r) w = listcmd l r
add_arg (backcmd c) w = backcmd c

-- `while(!peek(ps, es, "|)&;"))` of `parseexec`.
unfoldable pub arguments : ℕ → ℕ → Cmd → List ℕ → Result Parsed
arguments zero argc cmd s = spent
arguments (suc n) argc cmd s = elim (peek s (b'|' ∷ b')' ∷ b'&' ∷ b';' ∷ [])) [
  | sees u ↦ parsed cmd u
  | misses u ↦
      let t = gettoken u in
      if t.ret == 0 then parsed cmd t.rest else elim (t.ret == b'a') [
        | true ↦
            if leb maxargs (argc + 1)
            then dies too_many_args
            else redirs (add_arg cmd t.word) t.rest >>= λ r. arguments n (argc + 1) r.cmd r.rest
        | false ↦ dies syntax
      ]
]

-- `parseexec` behind its test for a block.
unfoldable pub simple : List ℕ → Result Parsed
simple s = do r ← redirs (execcmd []) s; arguments (suc (length r.rest)) 0 r.cmd r.rest

-- `while(peek(ps, es, "&"))` of `parseline`.
unfoldable pub background : ℕ → Cmd → List ℕ → Result Parsed
background zero cmd s = spent
background (suc n) cmd s = elim (peek s (b'&' ∷ [])) [
  | sees u ↦ background n (backcmd cmd) (gettoken u).rest
  | misses u ↦ parsed cmd u
]

unfoldable mutual
  pub parseline : ℕ → List ℕ → Result Parsed
  parseline zero s = spent
  parseline (suc n) s = parsepipe n s >>= λ r.
      background (suc (length r.rest)) r.cmd r.rest >>= λ b. (elim (peek b.rest (b';' ∷ [])) [
        | sees u ↦ parseline n (gettoken u).rest >>= λ l. parsed (listcmd b.cmd l.cmd) l.rest
        | misses u ↦ parsed b.cmd u
      ])

  pub parsepipe : ℕ → List ℕ → Result Parsed
  parsepipe zero s = spent
  parsepipe (suc n) s = parseexec n s >>= λ r. (elim (peek r.rest (b'|' ∷ [])) [
    | sees u ↦ parsepipe n (gettoken u).rest >>= λ l. parsed (pipecmd r.cmd l.cmd) l.rest
    | misses u ↦ parsed r.cmd u
  ])

  pub parseexec : ℕ → List ℕ → Result Parsed
  parseexec zero s = spent
  parseexec (suc n) s = elim (peek s (b'(' ∷ [])) [ sees u ↦ parseblock n u | misses u ↦ simple u ]

  pub parseblock : ℕ → List ℕ → Result Parsed
  parseblock zero s = spent
  parseblock (suc n) s = elim (peek s (b'(' ∷ [])) [
    | sees u ↦ parseline n (gettoken u).rest >>= λ r. (elim (peek r.rest (b')' ∷ [])) [
      | sees v ↦ redirs r.cmd (gettoken v).rest
      | misses v ↦ dies missing_paren
    ])
    | misses u ↦ dies parse_block
  ]

-- `parsecmd`, with as much fuel as the text can need.
unfoldable pub parsecmd : List ℕ → Result Cmd
parsecmd s = parseline (4 * length s + 4) s >>= λ r. elim (rest_of (peek r.rest [])) [
  | [] ↦ ok r.cmd
  | c ∷ cs ↦ dies leftovers
]

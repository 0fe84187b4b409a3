-- ===== src/Shell/Total.antt =====
-- The parser of sh.c ends on every text: no call of it runs out of the fuel it starts with.
use mutex.Common.{
  ℕ, zero, suc, ◌+◌, ◌*◌, ◌≤◌, ◌<◌, ◌≢◌, List, [], ◌∷◌, ◌==◌, inl, inr, refl, length, leb, arith,
  Bool-cases,
}
use mutex.Shell.{Cmd, execcmd, backcmd, Result, ok, dies, spent, leftovers, ◌>>=◌, Parsed}
use mutex.Shell.Lexer.{gettoken, peek, rest_of}
use mutex.Shell.Parser.{
  maxargs, redirect, parseredirs, redirs, add_arg, arguments, simple, background, parseline,
  parsepipe, parseexec, parseblock, parsecmd,
}
use mutex.Shell.Shorter.{peek-cases, gettoken-cases, length-gettoken}

-- A call ends, and what it leaves has at most `n` characters.
unfoldable pub Fits : ℕ → Result Parsed → Type 0
Fits n (ok p) = length p.rest ≤ n
Fits n (dies e) = 0 ≤ n
Fits n spent = ⊥

Fits-mono : (m n : ℕ) (r : Result Parsed) → m ≤ n → Fits m r → Fits n r
unfolding Fits
Fits-mono m n (ok p) h f = omega arith
Fits-mono m n (dies e) h f = omega arith
Fits-mono m n spent h f = f

Fits-bind :
    (m n : ℕ) (r : Result Parsed) (f : Parsed → Result Parsed)
    → Fits m r
    → ((p : Parsed) → length p.rest ≤ m → Fits n (f p))
    → Fits n (r >>= f)
unfolding Fits
Fits-bind m n (ok p) f h k = k p h
Fits-bind m n (dies e) f h k = omega arith
Fits-bind m n spent f h k = h

parseredirs-Fits :
    (n : ℕ) (c : Cmd) (s : List ℕ) → length s < n → Fits (length s) (parseredirs n c s)
unfolding Fits parseredirs
parseredirs-Fits zero c s h = absurd (omega arith)
parseredirs-Fits (suc n) c s h = elim (peek-cases s (b'<' ∷ b'>' ∷ [])) [
  | inl found ↦
      let (u, e, le, lt) = found in
      let t = gettoken u in
      let f = gettoken t.rest in
      let shorter = length-gettoken t.rest in
      rw (e, parseredirs)
        (elim (Bool-cases (f.ret == b'a')) [
          | inl y ↦ rw y (
              Fits-mono (length f.rest) (length s) (parseredirs n (redirect c t.ret f.word) f.rest)
                (omega arith) (parseredirs-Fits n (redirect c t.ret f.word) f.rest (omega arith)))
          | inr no_word ↦ rw no_word (omega arith)
        ])
  | inr missing ↦ let (u, e, le) = missing in rw (e, parseredirs) le
]

redirs-Fits : (c : Cmd) (s : List ℕ) → Fits (length s) (redirs c s)
unfolding redirs
redirs-Fits c s = parseredirs-Fits (suc (length s)) c s (omega arith)

arguments-next :
    (n argc : ℕ) (c : Cmd) (s : List ℕ)
    → ((d : Cmd) (u : List ℕ) → length u < n → Fits (length u) (arguments n (argc + 1) d u))
    → length s < n
    → Fits (length s) (redirs c s >>= λ r. arguments n (argc + 1) r.cmd r.rest)
arguments-next n argc c s ih h =
    Fits-bind (length s) (length s) (redirs c s) (λ r. arguments n (argc + 1) r.cmd r.rest)
      (redirs-Fits c s)
      (λ r le.
        Fits-mono (length r.rest) (length s) (arguments n (argc + 1) r.cmd r.rest) le
          (ih r.cmd r.rest (omega arith)))

arguments-Fits :
    (n argc : ℕ) (c : Cmd) (s : List ℕ) → length s < n → Fits (length s) (arguments n argc c s)
unfolding Fits arguments
arguments-Fits zero argc c s h = absurd (omega arith)
arguments-Fits (suc n) argc c s h = elim (peek-cases s (b'|' ∷ b')' ∷ b'&' ∷ b';' ∷ [])) [
  | inl found ↦ let (u, e, le, lt) = found in rw (e, arguments) le
  | inr missing ↦
      let (u, e, le) = missing in
      let t = gettoken u in
      let le_t = length-gettoken u in
      rw (e, arguments)
        (elim (Bool-cases (t.ret == 0)) [
          | inl y ↦ rw y (omega arith)
          | inr more ↦ rw more (elim (Bool-cases (t.ret == b'a')) [
            | inl w ↦ rw w (elim (Bool-cases (leb maxargs (argc + 1))) [
              | inl full ↦ rw full (omega arith)
              | inr room ↦
                  let shorter : length t.rest < length u = elim (gettoken-cases u) [
                    | inl z ↦ absurd (ground arith)
                    | inr lt ↦ lt
                  ] in
                  rw room (
                    Fits-mono (length t.rest) (length s)
                      (redirs (add_arg c t.word) t.rest >>= λ r.
                        arguments n (argc + 1) r.cmd r.rest)
                      (omega arith)
                      (arguments-next n argc (add_arg c t.word) t.rest
                        (λ d v lt. arguments-Fits n (argc + 1) d v lt) (omega arith)))
            ])
            | inr bad ↦ rw bad (omega arith)
          ])
        ])
]

background-Fits : (n : ℕ) (c : Cmd) (s : List ℕ) → length s < n → Fits (length s) (background n c s)
unfolding Fits background
background-Fits zero c s h = absurd (omega arith)
background-Fits (suc n) c s h = elim (peek-cases s (b'&' ∷ [])) [
  | inl found ↦
      let (u, e, le, lt) = found in
      let rest = (gettoken u).rest in
      rw (e, background)
        (Fits-mono (length rest) (length s) (background n (backcmd c) rest) (omega arith)
          (background-Fits n (backcmd c) rest (omega arith)))
  | inr missing ↦ let (u, e, le) = missing in rw (e, background) le
]

simple-Fits : (s : List ℕ) → Fits (length s) (simple s)
unfolding simple
simple-Fits s =
    Fits-bind (length s) (length s) (redirs (execcmd []) s)
      (λ r. arguments (suc (length r.rest)) 0 r.cmd r.rest) (redirs-Fits (execcmd []) s)
      (λ r le.
        Fits-mono (length r.rest) (length s) (arguments (suc (length r.rest)) 0 r.cmd r.rest) le
          (arguments-Fits (suc (length r.rest)) 0 r.cmd r.rest (omega arith)))

mutual
  unfolding Fits parseline parsepipe parseexec parseblock

  parseline-Fits : (n : ℕ) (s : List ℕ) → 4 * length s + 4 ≤ n → Fits (length s) (parseline n s)
  parseline-Fits zero s h = absurd (omega arith)
  parseline-Fits (suc n) s h =
      Fits-bind (length s) (length s) (parsepipe n s) _ (parsepipe-Fits n s (omega arith))
        (λ r first.
          Fits-bind (length r.rest) (length s) (background (suc (length r.rest)) r.cmd r.rest) _
            (background-Fits (suc (length r.rest)) r.cmd r.rest (omega arith))
            (λ b less. elim (peek-cases b.rest (b';' ∷ [])) [
              | inl found ↦
                  let (u, e, le, lt) = found in
                  let rest = (gettoken u).rest in
                  rw e (
                    Fits-bind (length rest) (length s) (parseline n rest) _
                      (parseline-Fits n rest (omega arith)) (λ l short. omega arith))
              | inr missing ↦ let (u, e, le) = missing in rw e (omega arith)
            ]))

  parsepipe-Fits : (n : ℕ) (s : List ℕ) → 4 * length s + 3 ≤ n → Fits (length s) (parsepipe n s)
  parsepipe-Fits zero s h = absurd (omega arith)
  parsepipe-Fits (suc n) s h =
      Fits-bind (length s) (length s) (parseexec n s) _ (parseexec-Fits n s (omega arith))
        (λ r less. elim (peek-cases r.rest (b'|' ∷ [])) [
          | inl found ↦
              let (u, e, le, lt) = found in
              let rest = (gettoken u).rest in
              rw e (
                Fits-bind (length rest) (length s) (parsepipe n rest) _
                  (parsepipe-Fits n rest (omega arith)) (λ l short. omega arith))
          | inr missing ↦ let (u, e, le) = missing in rw e (omega arith)
        ])

  parseexec-Fits : (n : ℕ) (s : List ℕ) → 4 * length s + 2 ≤ n → Fits (length s) (parseexec n s)
  parseexec-Fits zero s h = absurd (omega arith)
  parseexec-Fits (suc n) s h = elim (peek-cases s (b'(' ∷ [])) [
    | inl found ↦
        let (u, e, le, lt) = found in
        rw (e, parseexec)
          (Fits-mono (length u) (length s) (parseblock n u) le (parseblock-Fits n u (omega arith)))
    | inr missing ↦
        let (u, e, le) = missing in
        rw (e, parseexec) (Fits-mono (length u) (length s) (simple u) le (simple-Fits u))
  ]

  parseblock-Fits : (n : ℕ) (s : List ℕ) → 4 * length s + 1 ≤ n → Fits (length s) (parseblock n s)
  parseblock-Fits zero s h = absurd (omega arith)
  parseblock-Fits (suc n) s h = elim (peek-cases s (b'(' ∷ [])) [
    | inl found ↦
        let (u, e, le, lt) = found in
        let rest = (gettoken u).rest in
        rw (e, parseblock)
          (Fits-bind (length rest) (length s) (parseline n rest) _
            (parseline-Fits n rest (omega arith))
            (λ r less. elim (peek-cases r.rest (b')' ∷ [])) [
              | inl close ↦
                  let (v, e2, le2, lt2) = close in
                  let end = (gettoken v).rest in
                  rw e2 (
                    Fits-mono (length end) (length s) (redirs r.cmd end) (omega arith)
                      (redirs-Fits r.cmd end))
              | inr missing ↦ let (v, e2, le2) = missing in rw e2 (omega arith)
            ]))
    | inr missing ↦ let (u, e, le) = missing in rw (e, parseblock) (omega arith)
  ]

Fits-not_spent : (n : ℕ) (r : Result Parsed) → Fits n r → r ≢ spent
unfolding Fits
Fits-not_spent n (ok p) f e = absurd (ground arith)
Fits-not_spent n (dies x) f e = absurd (ground arith)
Fits-not_spent n spent f e = f

end_of : (p : Parsed) (s : List ℕ) → elim s [ [] ↦ ok p.cmd | c ∷ cs ↦ dies leftovers ] ≢ spent
end_of p [] e = absurd (ground arith)
end_of p (c ∷ cs) e = absurd (ground arith)

whole_or_leftovers :
    (r : Result Parsed)
    → r ≢ spent
    → (r >>= λ p. elim (rest_of (peek p.rest [])) [ [] ↦ ok p.cmd | c ∷ cs ↦ dies leftovers ])
      ≢ spent
whole_or_leftovers (ok p) h e = end_of p (rest_of (peek p.rest [])) e
whole_or_leftovers (dies x) h e = ground arith
whole_or_leftovers spent h e = h refl

-- On every text `parsecmd` gives a tree or panics: its fuel is enough for the depth of the calls
-- and for every loop.
pub parsecmd-ends : (s : List ℕ) → parsecmd s ≢ spent
unfolding parsecmd
parsecmd-ends s =
    let r = parseline (4 * length s + 4) s in
    whole_or_leftovers r
      (Fits-not_spent (length s) r (parseline-Fits (4 * length s + 4) s (omega arith)))

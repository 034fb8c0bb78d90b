-- ===== src/Expr/Read.antt =====
-- The lexer reads back the text of tokens.
use nemu.Base.{ℕ, zero, suc, ◌+◌, ◌*◌, ◌≤◌, ◌<◌, ◌≡◌, refl, ap, ◌∙◌, arith, true, false}
use nemu.Base.{◌==◌, ltb_iff, none, some, List, [], ◌∷◌, ◌++◌, length, take, drop}
use nemu.Base.{take-append, drop-append, length-append}
use nemu.Expr.Tokens.{TokenType, Token}
use nemu.Expr.Lex.{run_length, spaces, rules, first_match, Lexed, lexed, token_of, make_token}
use nemu.Expr.Lex.{is_space, cons_token, at_least_one, fits}
use nemu.Expr.Spell.{Found, text, spell}

-- A text that does not go on with a space.
abbrev pub Solid : List ℕ → Type 0
Solid [] = Unit {0}
Solid (c ∷ cs) = (c == b' ') ≡ false

-- A token that the lexer reads from its text.
pub record Lexable (t : Token) : Type 0 where
  pub found : Found t.type (text t)
  pub same : token_of t.type (text t) ≡ t
  pub solid : (rest : List ℕ) → Solid (text t ++ rest)
  pub some_text : 0 < length (text t)
  pub short : fits t.type (length (text t)) ≡ true

abbrev pub AllLexable : List Token → Type 0
AllLexable [] = Unit {0}
AllLexable (t ∷ ts) = Lexable t × AllLexable ts

spell-Solid : (ts : List Token) → AllLexable ts → Solid (spell ts)
spell-Solid [] h = tt
spell-Solid (t ∷ ts) h = h.0.solid (b' ' ∷ spell ts)

run_length-Solid : (limit : ℕ) (cs : List ℕ) → Solid cs → run_length is_space limit cs ≡ 0
unfolding run_length
run_length-Solid zero cs h = refl
run_length-Solid (suc limit) [] h = refl
run_length-Solid (suc limit) (c ∷ cs) h = rw h refl

first_match-space : (cs : List ℕ) → Solid cs → first_match rules (b' ' ∷ cs) ≡ some (1, none)
unfolding first_match spaces run_length
first_match-space cs h =
    ap
      (λ (n : ℕ). elim (at_least_one 0 (suc n)) [
        | none ↦ first_match (drop 1 rules) (b' ' ∷ cs)
        | some n ↦ some (n, none)
      ])
      (run_length-Solid (length cs) cs h)

make_token-space :
    (fuel nr : ℕ) (cs : List ℕ)
    → Solid cs
    → make_token (suc fuel) nr (b' ' ∷ cs) ≡ make_token fuel nr cs
unfolding make_token
make_token-space fuel nr cs h = rw (first_match-space cs h, make_token) refl

make_token-found :
    (fuel nr : ℕ) (cs : List ℕ) (n : ℕ) (t : TokenType)
    → 0 < length cs
    → nr < 32
    → fits t (length (take n cs)) ≡ true
    → first_match rules cs ≡ some (n, some t)
    → make_token (suc fuel) nr cs
      ≡ cons_token (token_of t (take n cs)) (make_token fuel (nr + 1) (drop n cs))
unfolding make_token
make_token-found fuel nr [] n t pos lt g f = absurd (omega arith)
make_token-found fuel nr (c ∷ cs) n t pos lt g f = rw (f, make_token, (ltb_iff nr 32).1 lt, g) refl

make_token-text :
    (fuel nr : ℕ) (t : Token) (rest : List ℕ)
    → Lexable t
    → nr < 32
    → Solid rest
    → make_token (suc (suc fuel)) nr (text t ++ (b' ' ∷ rest))
      ≡ cons_token t (make_token fuel (nr + 1) rest)
make_token-text fuel nr t rest h lt solid =
    make_token-found (suc fuel) nr (text t ++ (b' ' ∷ rest)) (length (text t)) t.type
      (omega (arith, length-append (text t) (b' ' ∷ rest))) lt
      (rw (take-append (text t) (b' ' ∷ rest)) h.short) (h.found rest)
    ∙ rw
        (
          take-append (text t) (b' ' ∷ rest),
          drop-append (text t) (b' ' ∷ rest),
          make_token-space fuel (nr + 1) rest solid,
          h.same,
        )
        refl

-- The tokens of a text of at most 32 tokens, each followed by a space.
pub make_token-spell :
    (ts : List Token) (fuel nr : ℕ)
    → AllLexable ts
    → nr + length ts ≤ 32
    → 2 * length ts ≤ fuel
    → make_token fuel nr (spell ts) ≡ lexed ts
unfolding make_token
make_token-spell [] fuel nr h le enough = refl
make_token-spell (t ∷ ts) zero nr h le enough = absurd (omega arith)
make_token-spell (t ∷ ts) (suc zero) nr h le enough = absurd (omega arith)
make_token-spell (t ∷ ts) (suc (suc fuel)) nr h le enough =
    make_token-text fuel nr t (spell ts) h.0 (omega arith) (spell-Solid ts h.1)
    ∙ ap (λ (r : Lexed). cons_token t r)
        (make_token-spell ts fuel (nr + 1) h.1 (omega arith) (omega arith))

pub length-spell : (ts : List Token) → AllLexable ts → 2 * length ts ≤ length (spell ts)
length-spell [] h = omega arith
length-spell (t ∷ ts) h =
    omega (arith, length-spell ts h.1, length-append (text t) (b' ' ∷ spell ts), h.0.some_text)

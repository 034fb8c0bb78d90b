-- ===== src/Expr/Ends.antt =====
-- expr() ends, on every text.
use nemu.Base.{ℕ, zero, suc, ◌+◌, ◌≤◌, ◌<◌, ◌≡◌, ◌≢◌, refl, ap, arith, Bool, true, false, inl, inr}
use nemu.Base.{
  Bool-cases, ◌==◌, ◌&&◌, ltb, if◌then◌else◌, Option, none, some, List, [], ◌∷◌, length, take, drop,
}
use nemu.Base.{length-drop}
use nemu.Machine.{pure, panic}
use nemu.Expr.Tokens.{TokenType, Token}
use nemu.Expr.Lex.{run_length, at_least_one, one_char, two_chars, spaces, hex_number, dec_number}
use nemu.Expr.Lex.{reg_name, Rule, rules, first_match, Lexed, lexed, no_match, overrun}
use nemu.Expr.Lex.{
  out_of_fuel, cons_token, token_of, make_token, is_space, is_reg_char, nr_max, fits,
}
use nemu.Expr.Text.{is_digit, is_hex}
use nemu.Expr.{mark, eval, expr, failed, exhausted}
use nemu.Expr.Fuel.{Ends, eval-Ends, failed-Ends, panic-Ends}

-- A match is not empty.
abbrev Positive : Option ℕ → Type 0
Positive none = Unit {0}
Positive (some n) = 0 < n

at_least_one-Positive : (skip n : ℕ) → Positive (at_least_one skip n)
at_least_one-Positive skip n = elim (Bool-cases (ltb 0 n)) [
  | inl pos ↦ rw pos (ground arith)
  | inr z ↦ rw z tt
]

one_char-Positive : (x : ℕ) (cs : List ℕ) → Positive (one_char x cs)
unfolding one_char
one_char-Positive x [] = tt
one_char-Positive x (c ∷ cs) = elim (Bool-cases (c == x)) [
  | inl e ↦ rw e (omega arith)
  | inr n ↦ rw n tt
]

two_chars-Positive : (x y : ℕ) (cs : List ℕ) → Positive (two_chars x y cs)
unfolding two_chars
two_chars-Positive x y [] = tt
two_chars-Positive x y (c ∷ []) = tt
two_chars-Positive x y (c ∷ d ∷ cs) = pick ((c == x) && (d == y))
  where
    pick : (b : Bool) → Positive (if b then some 2 else none)
    pick true = omega arith
    pick false = tt

after-Positive :
    (o : Option ℕ) (m : Option ℕ) → Positive m → Positive (elim o [ none ↦ none | some n ↦ m ])
after-Positive none m h = tt
after-Positive (some n) m h = h

abbrev AllPositive : List Rule → Type 0
AllPositive [] = Unit {0}
AllPositive (r ∷ rs) = ((cs : List ℕ) → Positive (r.regex cs)) × AllPositive rs

rules-AllPositive : AllPositive rules
unfolding spaces hex_number dec_number reg_name
rules-AllPositive = (
  (λ cs. at_least_one-Positive 0 (run_length is_space (length cs) cs)),
  (
    (one_char-Positive b'+'),
    (
      (two_chars-Positive b'=' b'='),
      (
        (λ cs.
            after-Positive (two_chars b'0' b'x' cs) _
              (at_least_one-Positive 2 (run_length is_hex 16 (drop 2 cs)))),
        (
          (λ cs. at_least_one-Positive 0 (run_length is_digit 10 cs)),
          (
            (λ cs.
                after-Positive (one_char b'$' cs) _
                  (at_least_one-Positive 1 (run_length is_reg_char 31 (drop 1 cs)))),
            (
              (one_char-Positive b'+'),
              (
                (one_char-Positive b'-'),
                (
                  (one_char-Positive b'*'),
                  (
                    (one_char-Positive b'/'),
                    (
                      (one_char-Positive b'%'),
                      (
                        (two_chars-Positive b'=' b'='),
                        (
                          (two_chars-Positive b'!' b'='),
                          (
                            (two_chars-Positive b'&' b'&'),
                            (
                              (two_chars-Positive b'|' b'|'),
                              (
                                (one_char-Positive b'!'),
                                ((one_char-Positive b'('), ((one_char-Positive b')'), tt)),
                              ),
                            ),
                          ),
                        ),
                      ),
                    ),
                  ),
                ),
              ),
            ),
          ),
        ),
      ),
    ),
  ),
)

abbrev Moves : Option (ℕ × Option TokenType) → Type 0
Moves none = Unit {0}
Moves (some (n, t)) = 0 < n

first_match-Moves : (rs : List Rule) (cs : List ℕ) → AllPositive rs → Moves (first_match rs cs)
unfolding first_match
first_match-Moves [] cs h = tt
first_match-Moves (r ∷ rs) cs h =
    pick (r.regex cs) (h.0 cs) (first_match rs cs) (first_match-Moves rs cs h.1)
  where
    pick :
        (o : Option ℕ)
        → Positive o
        → (later : Option (ℕ × Option TokenType)) → Moves later
        → Moves (elim o [ none ↦ later | some n ↦ some (n, r.token_type) ])
    pick none p later m = m
    pick (some n) p later m = p

cons_token-ends : (t : Token) (r : Lexed) → r ≢ out_of_fuel → cons_token t r ≢ out_of_fuel
cons_token-ends t (lexed ts) ne h = cc
cons_token-ends t no_match ne h = ne h
cons_token-ends t overrun ne h = ne h
cons_token-ends t out_of_fuel ne h = ne h

-- One round, where `ih` is for the rest of the text.
round-ends :
    (fuel nr : ℕ) (cs : List ℕ)
    → ((k n : ℕ) → 0 < n → make_token fuel k (drop n cs) ≢ out_of_fuel)
    → (m : Option (ℕ × Option TokenType)) → Moves m
    → elim m [
      | none ↦ no_match
      | some (n, none) ↦ make_token fuel nr (drop n cs)
      | some (n, some t) ↦
          let rest = make_token fuel (nr + 1) (drop n cs) in
          if ltb nr nr_max && fits t (length (take n cs))
          then cons_token (token_of t (take n cs)) rest
          else overrun
    ]
      ≢ out_of_fuel
round-ends fuel nr cs ih none m = λ h. cc
round-ends fuel nr cs ih (some (n, none)) m = ih nr n m
round-ends fuel nr cs ih (some (n, some t)) m =
    elim (Bool-cases (ltb nr nr_max && fits t (length (take n cs)))) [
      | inl below ↦ rw below (cons_token-ends (token_of t (take n cs)) _ (ih (nr + 1) n m))
      | inr full ↦ rw full (λ h. cc)
    ]

-- Fuel for every byte is enough for the loop over the text.
make_token-ends :
    (fuel nr : ℕ) (cs : List ℕ) → length cs ≤ fuel → make_token fuel nr cs ≢ out_of_fuel
unfolding make_token
make_token-ends fuel nr [] h = λ e. cc
make_token-ends zero nr (c ∷ cs) h = absurd (omega arith)
make_token-ends (suc fuel) nr (c ∷ cs) h =
    round-ends fuel nr (c ∷ cs)
      (λ k n pos. make_token-ends fuel k (drop n (c ∷ cs)) (omega (arith, length-drop n (c ∷ cs))))
      (first_match rules (c ∷ cs)) (first_match-Moves rules (c ∷ cs) rules-AllPositive)

length-mark : (after_operand : Bool) (ts : List Token) → length (mark after_operand ts) ≡ length ts
unfolding mark
length-mark after_operand [] = refl
length-mark after_operand (t ∷ ts) = ap suc (length-mark _ ts)

-- On every text, expr() ends with a value, a failure, an exception of the guest or a stop of the
-- emulator: neither of its loops lacks fuel.
pub expr-Ends : (e : List ℕ) → Ends (expr e)
unfolding expr
expr-Ends e = found (make_token (length e) 0 e) (make_token-ends (length e) 0 e (omega arith))
  where
    found :
        (r : Lexed)
        → r ≢ out_of_fuel
        → Ends (elim r [
          | lexed ts ↦ eval (suc (length ts)) (mark false ts)
          | no_match ↦ pure failed
          | overrun ↦ panic
          | out_of_fuel ↦ pure exhausted
        ])
    found (lexed ts) ne =
        eval-Ends (suc (length ts)) (mark false ts) (omega (arith, length-mark false ts))
    found no_match ne = failed-Ends
    found overrun ne = panic-Ends
    found out_of_fuel ne = absurd (ne refl)

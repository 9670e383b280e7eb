-- ===== src/Sql/Lexer/Total.antt =====
-- The fuel that internal/sql/lexer.go is modelled with is always enough, and so Parse returns.
use doki.Prelude.{
  ℕ, zero, suc, ◌-◌, ◌<◌, ◌≡◌, refl, arith, String, ◌⊎◌, inl, inr, false, List, [], ◌∷◌, Option,
  none, some, length,
}
use doki.Config.{ℤ}
use doki.Sql.Ast.{Statement}
use doki.Sql.Parser.{Token, parsed, syntax_err}
use doki.Sql.Parser.Total.{parse_statement_returns}
use doki.Sql.Lexer.{
  Lexed, tokens, lex_err, out_of_fuel, prepend, then_lex, lex_next, lex_token, skip_from, lex_loop,
  lex, parse_lexed, parse,
}
use doki.Sql.Lexer.Scans.{Leaves, skip_from_le, lex_token-Leaves}

abbrev Lasts : Lexed → Type 0
Lasts (tokens ts) = Unit
Lasts lex_err = Unit
Lasts out_of_fuel = ⊥

prepend-Lasts : (t : Token) (r : Lexed) → Lasts r → Lasts (prepend t r)
unfolding prepend
prepend-Lasts t (tokens ts) h = tt
prepend-Lasts t lex_err h = tt
prepend-Lasts t out_of_fuel h = h

then_lex-Lasts :
    (n : ℕ) (more : List ℕ → Lexed) (o : Option (Token × List ℕ))
    → ((bs : List ℕ) → length bs < n → Lasts (more bs))
    → (k : ℕ) → k < n
    → Leaves k o
    → Lasts (then_lex more o)
unfolding then_lex
then_lex-Lasts n more none lasts k lt h = tt
then_lex-Lasts n more (some (t, rest)) lasts k lt h =
    prepend-Lasts t (more rest) (lasts rest (omega (arith, lt, h)))

module _ (text_of : List ℕ → String) (to_lower : String → String) where
  lex_next-Lasts :
      (n total : ℕ) (more : List ℕ → Lexed)
      → ((bs : List ℕ) → length bs < n → Lasts (more bs))
      → (bs : List ℕ) → length bs < suc n
      → Lasts (lex_next text_of to_lower more total bs)
  unfolding lex_next
  lex_next-Lasts n total more lasts [] h = tt
  lex_next-Lasts n total more lasts (ch ∷ bs) h =
      then_lex-Lasts n more (lex_token text_of to_lower ch bs (total - length (ch ∷ bs))) lasts
        (length bs) (omega (arith, h))
        (lex_token-Leaves text_of to_lower ch bs (total - length (ch ∷ bs)))

  lex_loop-Lasts :
      (n total : ℕ) (bs : List ℕ) → length bs < n → Lasts (lex_loop text_of to_lower total n bs)
  unfolding lex_loop
  lex_loop-Lasts zero total bs h = omega (arith, h)
  lex_loop-Lasts (suc n) total bs h =
      let le = skip_from_le false bs in
      lex_next-Lasts n total (lex_loop text_of to_lower total n) (lex_loop-Lasts n total)
        (skip_from false bs) (omega (arith, le, h))

  lex-Lasts : (bs : List ℕ) → Lasts (lex text_of to_lower bs)
  unfolding lex
  lex-Lasts bs = lex_loop-Lasts (suc (length bs)) (length bs) bs (omega arith)

module _ (to_upper : String → String) (parse_int : String → Option ℤ) where
  parse_lexed_returns :
      (r : Lexed)
      → Lasts r
      → (parse_lexed to_upper parse_int r ≡ syntax_err)
        ⊎ ((s : Statement) × (rest : List Token) × (parse_lexed to_upper parse_int r
              ≡ parsed s rest))
  unfolding parse_lexed
  parse_lexed_returns (tokens ts) h = elim (parse_statement_returns parse_int to_upper ts) [
    | inl failed ↦ inl failed
    | inr (s, rest, done, le) ↦ inr (s, rest, done)
  ]
  parse_lexed_returns lex_err h = inl refl
  parse_lexed_returns out_of_fuel h = absurd h

-- Parse returns for every text, with a statement or with an error: neither the lexer nor the parser
-- runs out of fuel.
pub parse_returns :
    (text_of : List ℕ → String) (to_lower to_upper : String → String)
    (parse_int : String → Option ℤ) (input : List ℕ)
    → (parse text_of to_lower to_upper parse_int input ≡ syntax_err)
      ⊎ ((s : Statement) × (rest : List Token) × (parse text_of to_lower to_upper parse_int input
            ≡ parsed s rest))
unfolding parse
parse_returns text_of to_lower to_upper parse_int input =
    parse_lexed_returns to_upper parse_int (lex text_of to_lower input)
      (lex-Lasts text_of to_lower input)

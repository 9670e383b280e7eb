-- ===== src/Sql/Lexer/Scans.antt =====
-- What the scans of internal/sql/lexer.go leave, and that they read a quoted text back.
use doki.Prelude.{
  ℕ, ◌≤◌, ◌≡◌, refl, arith, String, Bool, true, false, Bool-cases, inl, inr, List, [], ◌∷◌, ◌++◌,
  Option, none, some, length, ◌==◌, ◌||◌, ==_iff, if◌then◌else◌,
}
use doki.Sql.Lexer.{
  next_is, in_comment, is_space, skip_from, drop_while, write_byte, string_from, is_letter,
  is_digit, is_letter_or_digit, token_at, drop_byte, operator, punctuated, punctuation,
  string_token, lex_ident_or_keyword, lex_number, lex_token,
}

pub skip_from_le : (comment : Bool) (bs : List ℕ) → length (skip_from comment bs) ≤ length bs
unfolding skip_from
skip_from_le comment [] = omega arith
skip_from_le comment (b ∷ bs) =
    let le = skip_from_le (in_comment comment b bs) bs in
    elim (Bool-cases (in_comment comment b bs || is_space b)) [
      | inl passed ↦ rw passed (omega (arith, le))
      | inr kept ↦ rw kept (omega arith)
    ]

drop_while_le : (p : ℕ → Bool) (bs : List ℕ) → length (drop_while p bs) ≤ length bs
unfolding drop_while
drop_while_le p [] = omega arith
drop_while_le p (b ∷ bs) =
    let le = drop_while_le p bs in
    elim (Bool-cases (p b)) [
      | inl passed ↦ rw passed (omega (arith, le))
      | inr kept ↦ rw kept (omega arith)
    ]

-- At most so many bytes are left where something was read.
abbrev pub Leaves {ℓ} : {A : Type ℓ} → ℕ → Option (A × List ℕ) → Type 0
Leaves k none = Unit
Leaves k (some (x, rest)) = length rest ≤ k

write_byte-Leaves :
    (k m b : ℕ) (o : Option (List ℕ × List ℕ)) → k ≤ m → Leaves k o → Leaves m (write_byte b o)
unfolding write_byte
write_byte-Leaves k m b none le h = tt
write_byte-Leaves k m b (some (content, rest)) le h = omega (arith, le, h)

widen-Leaves {ℓ} :
    {A : Type ℓ} (k m : ℕ) (o : Option (A × List ℕ)) → k ≤ m → Leaves k o → Leaves m o
widen-Leaves k m none le h = tt
widen-Leaves k m (some (x, rest)) le h = omega (arith, le, h)

string_from-Leaves : (closing : Bool) (bs : List ℕ) → Leaves (length bs) (string_from closing bs)
unfolding string_from
string_from-Leaves true [] = omega arith
string_from-Leaves false [] = tt
string_from-Leaves true (b ∷ bs) = elim (Bool-cases (b == 39)) [
  | inl quote ↦ rw quote (
      write_byte-Leaves (length bs) (length (b ∷ bs)) 39 (string_from false bs) (omega arith)
        (string_from-Leaves false bs))
  | inr other ↦ rw other (omega arith)
]
string_from-Leaves false (b ∷ bs) = elim (Bool-cases (b == 39)) [
  | inl quote ↦ rw quote (
      widen-Leaves (length bs) (length (b ∷ bs)) (string_from true bs) (omega arith)
        (string_from-Leaves true bs))
  | inr other ↦ rw other (
      write_byte-Leaves (length bs) (length (b ∷ bs)) b (string_from false bs) (omega arith)
        (string_from-Leaves false bs))
]

-- A text as it stands between quotes, each of its quotes twice.
abbrev pub quoted : List ℕ → List ℕ
quoted [] = []
quoted (b ∷ bs) = if b == 39 then 39 ∷ 39 ∷ quoted bs else b ∷ quoted bs

string_from-quoted :
    (s rest : List ℕ)
    → next_is 39 rest ≡ false
    → string_from false (quoted s ++ (39 ∷ rest)) ≡ some (s, rest)
unfolding string_from next_is write_byte
string_from-quoted [] [] h = refl
string_from-quoted [] (r ∷ rest) h = rw h refl
string_from-quoted (b ∷ s) rest h = elim (Bool-cases (b == 39)) [
  | inl quote ↦ rw quote (rw (string_from-quoted s rest h) (rw ((==_iff b 39).0 quote) refl))
  | inr other ↦ rw (other, other, string_from-quoted s rest h) refl
]

operator-Leaves : (ch : ℕ) (bs : List ℕ) (at : ℕ) → Leaves (length bs) (operator ch bs at)
unfolding operator drop_byte
operator-Leaves ch [] at = ground arith
operator-Leaves ch (b ∷ bs) at = ground arith

punctuated-Leaves :
    (p : Option String) (ch : ℕ) (bs : List ℕ) (at : ℕ) → Leaves (length bs) (punctuated p ch bs at)
unfolding punctuated
punctuated-Leaves (some p) ch bs at = omega arith
punctuated-Leaves none ch bs at = operator-Leaves ch bs at

module _ (text_of : List ℕ → String) (to_lower : String → String) where
  string_token-Leaves :
      (k : ℕ) (o : Option (List ℕ × List ℕ)) (at : ℕ)
      → Leaves k o
      → Leaves k (string_token text_of to_lower o at)
  unfolding string_token
  string_token-Leaves k none at h = tt
  string_token-Leaves k (some (content, rest)) at h = h

  pub lex_token-Leaves :
      (ch : ℕ) (bs : List ℕ) (at : ℕ) → Leaves (length bs) (lex_token text_of to_lower ch bs at)
  unfolding lex_token lex_ident_or_keyword lex_number is_letter_or_digit
  lex_token-Leaves ch bs at = elim (Bool-cases (is_letter ch)) [
    | inl letter ↦ rw letter (drop_while_le is_letter_or_digit bs)
    | inr other ↦ rw other (elim (Bool-cases (is_digit ch)) [
      | inl digit ↦ rw digit (drop_while_le is_digit bs)
      | inr neither ↦ rw neither (elim (Bool-cases (ch == 39)) [
        | inl quote ↦ rw quote (
            string_token-Leaves (length bs) (string_from false bs) at (string_from-Leaves false bs))
        | inr sign ↦ rw sign (punctuated-Leaves (punctuation ch) ch bs at)
      ])
    ])
  ]

  -- A text that is written between quotes with each of its quotes doubled is lexed to the string
  -- token of that text, and lexing goes on after the closing quote, where no quote follows it.
  pub lex_token-quoted :
      (s rest : List ℕ) (at : ℕ)
      → next_is 39 rest ≡ false
      → lex_token text_of to_lower 39 (quoted s ++ (39 ∷ rest)) at
        ≡ some (token_at "STRING" (text_of s) at, rest)
  unfolding lex_token is_letter is_digit string_token
  lex_token-quoted s rest at h = rw (string_from-quoted s rest h) refl

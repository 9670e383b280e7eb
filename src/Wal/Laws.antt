-- ===== src/Wal/Laws.antt =====
-- What a reader of the log of internal/wal/wal.go finds after appends.
use doki.Prelude.{Bool, true, false, List, [], ◌∷◌, ◌++◌, ◌≡◌, refl, ap}
use doki.Wal.{Entry, Line, written, torn, read_lines}

-- Every line decodes and fits the scanner's buffer.
pub data Clean (fits : Entry → Bool) : List Line → Type 0 where
  nil : Clean fits []
  cons : (e : Entry) {ls : List Line} → fits e ≡ true → Clean fits ls → Clean fits (written e ∷ ls)

module _ (fits : Entry → Bool) where
  pub Clean-snoc :
      (e : Entry) {ls : List Line}
      → fits e ≡ true
      → Clean fits ls
      → Clean fits (ls ++ written e ∷ [])
  Clean-snoc e h nil = cons e h nil
  Clean-snoc e h (cons x f c) = cons x f (Clean-snoc e h c)

  -- What is added to a clean log is read after what was there.
  pub read_lines-snoc :
      (e : Entry) {ls : List Line}
      → fits e ≡ true
      → Clean fits ls
      → read_lines fits (ls ++ written e ∷ []) ≡ read_lines fits ls ++ e ∷ []
  unfolding read_lines
  read_lines-snoc e h nil = rw h
  read_lines-snoc e h (cons x f c) = rw f (ap (λ l. x ∷ l) (read_lines-snoc e h c))

  -- Nothing behind a line that does not decode, or that is too long, is read.
  pub read_lines-torn :
      (ls more : List Line)
      → read_lines fits (ls ++ torn ∷ more) ≡ read_lines fits (ls ++ torn ∷ [])
  unfolding read_lines
  read_lines-torn [] more = refl
  read_lines-torn (written x ∷ ls) more = rw (read_lines-torn ls more)
  read_lines-torn (torn ∷ ls) more = refl

  pub read_lines-too_long :
      (e : Entry) (ls more : List Line)
      → fits e ≡ false
      → read_lines fits (ls ++ written e ∷ more) ≡ read_lines fits (ls ++ [])
  unfolding read_lines
  read_lines-too_long e [] more h = rw h
  read_lines-too_long e (written x ∷ ls) more h = rw (read_lines-too_long e ls more h)
  read_lines-too_long e (torn ∷ ls) more h = refl

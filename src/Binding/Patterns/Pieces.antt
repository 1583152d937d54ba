-- ===== src/Binding/Patterns/Pieces.antt =====
-- korvex/_schema.py: what `path_params` finds in a pattern that is made of segments.
use korvex.Prelude.{
  ℕ, suc, ◌+◌, true, false, List, [], ◌∷◌, ◌++◌, Option, none, some, ◌≡◌, refl, ap, ◌∙◌, arith,
}
use korvex.Prelude.Lists.{All, length}
use korvex.Prelude.Tests.{◌==◌}
use korvex.Prelude.Text.{Text, is_empty}
use korvex.Binding.Patterns.{is_word, word, after_word, PathParam, named_by, match_at, find_params}

-- A segment: text, `{name}` or `{name:constraint}`, or `*name`.
pub data Piece : Type 0 where
  literal : Text → Piece
  param : Text → Option Text → Piece
  wildcard : Text → Piece

abbrev pub AllWord : Text → Type 0
AllWord s = All (λ c. is_word c ≡ true) s

abbrev pub IsWord : Text → Type 0
IsWord s = (is_empty s ≡ false) × AllWord s

abbrev pub IsPiece : Piece → Type 0
IsPiece (literal s) = All (λ c. ((c == b'{') ≡ false) × ((c == b'*') ≡ false)) s
IsPiece (param name none) = IsWord name
IsPiece (param name (some constraint)) = IsWord name × IsWord constraint
IsPiece (wildcard name) = IsWord name

abbrev show_piece : Piece → Text → Text
show_piece (literal s) r = s ++ r
show_piece (param name none) r = b'{' ∷ (name ++ b'}' ∷ r)
show_piece (param name (some constraint)) r = b'{' ∷ (name ++ b':' ∷ (constraint ++ b'}' ∷ r))
show_piece (wildcard name) r = b'*' ∷ (name ++ r)

unfoldable pub show_pattern : List Piece → Text
show_pattern [] = []
show_pattern (p ∷ ps) = b'/' ∷ show_piece p (show_pattern ps)

abbrev param_of : Piece → List PathParam → List PathParam
param_of (literal s) ps = ps
param_of (param n c) ps = record { name = n; constraint = c } ∷ ps
param_of (wildcard n) ps = record { name = n; constraint = none } ∷ ps

unfoldable pub params_of : List Piece → List PathParam
params_of [] = []
params_of (p ∷ ps) = param_of p (params_of ps)

abbrev StopsWord : Text → Type 0
StopsWord [] = Unit
StopsWord (c ∷ s) = is_word c ≡ false

word-append : (s r : Text) → AllWord s → StopsWord r → word (s ++ r) ≡ s
unfolding word
word-append [] [] h stop = refl
word-append [] (c ∷ r) h stop = rw stop refl
word-append (c ∷ s) r (h, hs) stop = rw (h, word-append s r hs stop) refl

after_word-append : (s r : Text) → AllWord s → StopsWord r → after_word (s ++ r) ≡ r
unfolding after_word
after_word-append [] [] h stop = refl
after_word-append [] (c ∷ r) h stop = rw stop refl
after_word-append (c ∷ s) r (h, hs) stop = rw (h, after_word-append s r hs stop) refl

find_params-skip : (s r : Text) (k : ℕ) → find_params (length s + k) (s ++ r) ≡ find_params k r
unfolding find_params
find_params-skip [] r k = ap (λ (n : ℕ). find_params n r) (omega arith)
find_params-skip (c ∷ s) r k =
    let e : length (c ∷ s) + k ≡ suc (length s + k) = omega arith in rw e (find_params-skip s r k)

find_params-literal : (s r : Text) → IsPiece (literal s) → find_params 0 (s ++ r) ≡ find_params 0 r
unfolding find_params match_at
find_params-literal [] r h = refl
find_params-literal (c ∷ s) r ((open_brace, star), hs) =
    rw (open_brace, star) (find_params-literal s r hs)

show_pattern-StopsWord : (ps : List Piece) → StopsWord (show_pattern ps)
unfolding show_pattern is_word
show_pattern-StopsWord [] = tt
show_pattern-StopsWord (p ∷ ps) = refl

find_params-name :
    (n r : Text)
    → IsWord n
    → find_params 0 (b'{' ∷ (n ++ b'}' ∷ r))
      ≡ record { name = n; constraint = none } ∷ find_params 0 r
unfolding find_params match_at named_by is_word
find_params-name n r (nonempty, h) =
    rw (word-append n (b'}' ∷ r) h refl, after_word-append n (b'}' ∷ r) h refl, nonempty)
      (ap (λ ps. record { name = n; constraint = none } ∷ ps) (find_params-skip n (b'}' ∷ r) 1))

find_params-constraint :
    (n c r : Text)
    → IsWord n
    → IsWord c
    → find_params 0 (b'{' ∷ (n ++ b':' ∷ (c ++ b'}' ∷ r)))
      ≡ record { name = n; constraint = some c } ∷ find_params 0 r
unfolding find_params match_at named_by is_word
find_params-constraint n c r (n_nonempty, hn) (c_nonempty, hc) =
    let rest : Text = c ++ b'}' ∷ r in
    let skip : length n + length c + 2 ≡ length n + suc (length c + 1) = omega arith in
    rw
      (
        word-append n (b':' ∷ rest) hn refl,
        after_word-append n (b':' ∷ rest) hn refl,
        n_nonempty,
        word-append c (b'}' ∷ r) hc refl,
        after_word-append c (b'}' ∷ r) hc refl,
        c_nonempty,
        skip,
      )
      (ap (λ ps. record { name = n; constraint = some c } ∷ ps)
        (find_params-skip n (b':' ∷ rest) (suc (length c + 1)) ∙ find_params-skip c (b'}' ∷ r) 1))

find_params-wildcard :
    (n r : Text)
    → IsWord n
    → StopsWord r
    → find_params 0 (b'*' ∷ (n ++ r)) ≡ record { name = n; constraint = none } ∷ find_params 0 r
unfolding find_params match_at
find_params-wildcard n r (nonempty, h) stop =
    let skip : length n ≡ length n + 0 = omega arith in
    rw (word-append n r h stop, nonempty, skip)
      (ap (λ ps. record { name = n; constraint = none } ∷ ps) (find_params-skip n r 0))

find_params-piece :
    (p : Piece) (r : Text)
    → IsPiece p
    → StopsWord r
    → find_params 0 (show_piece p r) ≡ param_of p (find_params 0 r)
find_params-piece (literal s) r h stop = find_params-literal s r h
find_params-piece (param n none) r h stop = find_params-name n r h
find_params-piece (param n (some c)) r (h, k) stop = find_params-constraint n c r h k
find_params-piece (wildcard n) r h stop = find_params-wildcard n r h stop

find_params-slash : (s : Text) → find_params 0 (b'/' ∷ s) ≡ find_params 0 s
unfolding find_params match_at
find_params-slash s = refl

-- In a pattern that is written from segments, of text without `{` and `*`, of `{name}` or
-- `{name:constraint}` and of `*name`, each after a slash, `path_params` finds the parameters of the
-- segments, in order, with their constraints.
pub find_params-pattern :
    (ps : List Piece) → All IsPiece ps → find_params 0 (show_pattern ps) ≡ params_of ps
unfolding show_pattern params_of find_params
find_params-pattern [] h = refl
find_params-pattern (p ∷ ps) (h, hs) =
    find_params-slash (show_piece p (show_pattern ps))
    ∙ (find_params-piece p (show_pattern ps) h (show_pattern-StopsWord ps)
        ∙ ap (param_of p) (find_params-pattern ps hs))

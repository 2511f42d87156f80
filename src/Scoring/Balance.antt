-- ===== src/Scoring/Balance.antt =====
-- `BalanceOptionsKey`: a Fisher-Yates shuffle of the options of a question, then new identifiers
-- A, B, C, … in order and the map from the old identifiers to the new ones.
pub mod Laws
use tao_core_go.Prelude.{
  ℕ, zero, suc, ◌+◌, ◌-◌, Text, Bool, Option, none, some, List, [], ◌∷◌, length, ltb, leb,
  get_elem?, set, text_eq, if◌then◌else◌,
}
use tao_core_go.Models.{ItemOption}

pub data BalanceError : Type 0 where
  -- more than 26 options
  too_many_options : BalanceError
  -- `rand.Int` failed
  no_randomness : BalanceError
  -- Go's panic on an index out of range
  index_panic : BalanceError

pub data Balanced (A : Type 0) : Type 0 where
  ok : A → Balanced A
  err : BalanceError → Balanced A

infixl 5 ◌>>=◌
abbrev pub ◌>>=◌ : {A B : Type 0} → Balanced A → (A → Balanced B) → Balanced B
ok a >>= f = f a
err e >>= f = err e

abbrev pub or_fail : {A : Type 0} → Option A → BalanceError → Balanced A
or_fail none e = err e
or_fail (some a) e = ok a

-- shuffled[i], shuffled[j] = shuffled[j], shuffled[i]
unfoldable pub swap : {A : Type 0} → List A → ℕ → ℕ → Balanced (List A)
swap xs i j = do
  a ← or_fail (get_elem? xs i) index_panic
  b ← or_fail (get_elem? xs j) index_panic
  ok (set (set xs i b) j a)

-- The loop `for i := len - 1; i > 0; i--`; `draw i` is what `rand.Int(rand.Reader, i + 1)` gives.
unfoldable pub shuffle : {A : Type 0} → (ℕ → Option ℕ) → ℕ → List A → Balanced (List A)
unfolding swap
shuffle draw zero xs = ok xs
shuffle draw (suc i) xs = do
  j ← or_fail (draw (suc i)) no_randomness
  ys ← swap xs (suc i) j
  shuffle draw i ys

-- string(rune('A' + i))
abbrev pub letter : ℕ → Text
letter i = (b'A' + i) ∷ []

abbrev pub IdentifierMap : Type 0
IdentifierMap = List (Text × Text)

-- A later write of a key stands before an earlier one.
unfoldable pub lookup : Text → IdentifierMap → Option Text
lookup k [] = none
lookup k ((j, v) ∷ m) = if text_eq j k then some v else lookup k m

-- The second loop, from index `i` on, with the map so far.
unfoldable pub relabel : ℕ → IdentifierMap → List ItemOption → List ItemOption × IdentifierMap
relabel i m [] = ([], m)
relabel i m (o ∷ os) =
    let (rest, m') = relabel (suc i) ((o.identifier, letter i) ∷ m) os in
    (record o { identifier = letter i } ∷ rest, m')

unfoldable pub balance_options_key :
    (ℕ → Option ℕ) → List ItemOption → Balanced (List ItemOption × IdentifierMap)
unfolding shuffle relabel
balance_options_key draw [] = ok ([], [])
balance_options_key draw (o ∷ os) =
    if ltb 26 (length (o ∷ os))
    then err too_many_options
    else do shuffled ← shuffle draw (length os) (o ∷ os); ok (relabel 0 [] shuffled)

-- ===== src/Qti/Paths.antt =====
-- The functions of `path/filepath` and `strings` on the names of entries.
use tao_core_go.Prelude.{
  ℕ, zero, suc, ◌-◌, Text, Bool, not, ◌&&◌, [], ◌∷◌, ◌++◌, length, any, eqb, codes, if◌then◌else◌,
}
use tao_core_go.Text.{is_empty, has_prefix, trim_right}

unfoldable pub is_slash : ℕ → Bool
is_slash c = eqb c b'/'

-- filepath.Ext: from the last dot of the last element on
unfoldable pub ext : Text → Text
unfolding is_slash
ext [] = []
ext (c ∷ s) =
    let later = ext s in
    if not (is_empty later) then later else if eqb c b'.' && not (any is_slash s) then c ∷ s else []

unfoldable pub last_element : Text → Text
unfolding is_slash
last_element [] = []
last_element (c ∷ s) =
    let later = last_element s in if any is_slash s then later else if is_slash c then s else c ∷ s

-- filepath.Base
unfoldable pub base : Text → Text
unfolding last_element
base s =
    if is_empty s
    then codes "."
    else let trimmed = trim_right is_slash s in
      if is_empty trimmed then codes "/" else last_element trimmed

-- What strings.ReplaceAll does for a text that is not empty; `skip` characters of the last match
-- are still to be passed over.
unfoldable pub replace_from : Text → Text → ℕ → Text → Text
replace_from old new skip [] = []
replace_from old new (suc skip) (c ∷ s) = replace_from old new skip s
replace_from old new zero (c ∷ s) =
    let matched = new ++ replace_from old new (length old - 1) s in
    let passed = c ∷ replace_from old new zero s in
    if has_prefix (c ∷ s) old then matched else passed

-- The empty text matches before each character and at the end.
unfoldable pub spread : Text → Text → Text
spread new [] = new
spread new (c ∷ s) = new ++ c ∷ spread new s

-- strings.ReplaceAll
unfoldable pub replace_all : Text → Text → Text → Text
unfolding replace_from spread
replace_all old new s = if is_empty old then spread new s else replace_from old new zero s

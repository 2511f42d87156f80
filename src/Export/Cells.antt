-- ===== src/Export/Cells.antt =====
-- Cells that a spreadsheet reads as formulas.
use tao_core_go.Prelude.{Text, Bool, false, [], ◌∷◌, ◌≡◌, refl, arith, if◌then◌else◌}
use tao_core_go.Text.{trim_left}
use tao_core_go.Export.{is_cell_blank, starts_formula, sanitize_csv_cell}

-- The first character that is not blank starts a formula.
unfoldable pub is_formula : Text → Bool
is_formula [] = false
is_formula (c ∷ s) = if is_cell_blank c then is_formula s else starts_formula c

formula_head :
    (value : Text)
    → is_formula value
      ≡ elim (trim_left is_cell_blank value) [ [] ↦ false | c ∷ rest ↦ starts_formula c ]
unfolding is_formula trim_left
formula_head [] = refl
formula_head (c ∷ s) = ground (arith, formula_head s)

-- Sanitizing puts an apostrophe before a cell whose first character that is not blank starts a
-- formula, and leaves every other cell as it is.
pub sanitize_csv_cell_lem :
    (value : Text) → sanitize_csv_cell value ≡ (if is_formula value then 39 ∷ value else value)
unfolding sanitize_csv_cell
sanitize_csv_cell_lem value = ground (arith, formula_head value)

pub sanitize_csv_cell-is_formula : (value : Text) → is_formula (sanitize_csv_cell value) ≡ false
unfolding is_formula
sanitize_csv_cell-is_formula value = ground (arith, sanitize_csv_cell_lem value)

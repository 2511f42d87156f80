-- ===== src/Text/Pieces.antt =====
-- `split` cuts a text into pieces without the separator, and `join` loses nothing of such pieces.
use tao_core_go.Prelude.{
  ℕ, Text, Bool, true, false, ◌&&◌, List, [], ◌∷◌, ◌++◌, ◌≡◌, ◌≢◌, refl, ap, arith, eqb, All, map,
  not, ◌∙◌, sym, Bool-cases, inl, inr,
}
use tao_core_go.Text.{split, join, cons_first, trim_left, trim_right, trim_space, is_space}

-- The text has no separator in it.
pub lacks : ℕ → Text → Bool
lacks sep [] = true
lacks sep (c ∷ s) = not (eqb c sep) && lacks sep s

abbrev pub Lacks : ℕ → Text → Type 0
Lacks sep s = lacks sep s ≡ true

module _ (sep : ℕ) where
  cons_first-Lacks :
      (c : ℕ) (ps : List Text)
      → eqb c sep ≡ false
      → All (Lacks sep) ps
      → All (Lacks sep) (cons_first c ps)
  unfolding lacks
  cons_first-Lacks c [] e h = (ground arith, tt)
  cons_first-Lacks c (p ∷ ps) e h = (ground arith, h.1)

  -- No piece of a split text has the separator in it.
  pub split-Lacks : (s : Text) → All (Lacks sep) (split sep s)
  unfolding split lacks
  split-Lacks [] = (refl, tt)
  split-Lacks (c ∷ s) = elim (Bool-cases (eqb c sep)) [
    | inl same ↦ rw same (refl, split-Lacks s)
    | inr other ↦ rw other (cons_first-Lacks c (split sep s) other (split-Lacks s))
  ]

  cons_first-ne-nil : (c : ℕ) (ps : List Text) → cons_first c ps ≢ []
  cons_first-ne-nil c [] = cc
  cons_first-ne-nil c (p ∷ ps) = cc

  pub split-ne-nil : (s : Text) → split sep s ≢ []
  unfolding split
  split-ne-nil [] = cc
  split-ne-nil (c ∷ s) = ground (arith, cons_first-ne-nil c (split sep s))

  trim_left-Lacks : (f : ℕ → Bool) (s : Text) → Lacks sep s → Lacks sep (trim_left f s)
  unfolding trim_left lacks
  trim_left-Lacks f [] h = refl
  trim_left-Lacks f (c ∷ s) h = ground (arith, trim_left-Lacks f s)

  trim_right-Lacks : (f : ℕ → Bool) (s : Text) → Lacks sep s → Lacks sep (trim_right f s)
  unfolding trim_right lacks
  trim_right-Lacks f [] h = refl
  trim_right-Lacks f (c ∷ s) h = ground (arith, trim_right-Lacks f s)

  pub trim_space-Lacks : (s : Text) → Lacks sep s → Lacks sep (trim_space s)
  unfolding trim_space
  trim_space-Lacks s h = trim_right-Lacks is_space _ (trim_left-Lacks is_space s h)

  pub map-trim_space-Lacks :
      (ps : List Text) → All (Lacks sep) ps → All (Lacks sep) (map trim_space ps)
  map-trim_space-Lacks [] h = tt
  map-trim_space-Lacks (p ∷ ps) h = (trim_space-Lacks p h.0, map-trim_space-Lacks ps h.1)

  split-append : (p r : Text) → Lacks sep p → split sep (p ++ sep ∷ r) ≡ p ∷ split sep r
  unfolding split lacks
  split-append [] r h = ground arith
  split-append (c ∷ p) r h = ground (arith, split-append p r)

  split_single : (p : Text) → Lacks sep p → split sep p ≡ p ∷ []
  unfolding split lacks
  split_single [] h = refl
  split_single (c ∷ p) h = ground (arith, split_single p)

  -- Pieces without the separator, at least one, are read back from their join.
  pub split-join : (ps : List Text) → ps ≢ [] → All (Lacks sep) ps → split sep (join sep ps) ≡ ps
  unfolding join
  split-join [] ne h = absurd (ne refl)
  split-join (p ∷ []) ne h = split_single p h.0
  split-join (p ∷ q ∷ ps) ne h =
      split-append p (join sep (q ∷ ps)) h.0 ∙ ap (◌∷◌ p) (split-join (q ∷ ps) (λ e. cc) h.1)

  pub join_injective :
      (ps qs : List Text)
      → ps ≢ []
      → qs ≢ []
      → All (Lacks sep) ps
      → All (Lacks sep) qs
      → join sep ps ≡ join sep qs
      → ps ≡ qs
  join_injective ps qs np nq hp hq e =
      sym (split-join ps np hp) ∙ ap (split sep) e ∙ split-join qs nq hq

  join-cons_first :
      (c : ℕ) (ps : List Text) → ps ≢ [] → join sep (cons_first c ps) ≡ c ∷ join sep ps
  unfolding join
  join-cons_first c [] ne = absurd (ne refl)
  join-cons_first c (p ∷ []) ne = refl
  join-cons_first c (p ∷ q ∷ ps) ne = refl

  join_nil-cons : (ps : List Text) → ps ≢ [] → join sep ([] ∷ ps) ≡ sep ∷ join sep ps
  unfolding join
  join_nil-cons [] ne = absurd (ne refl)
  join_nil-cons (p ∷ ps) ne = refl

  -- Splitting and joining gives the text back.
  pub join-split : (s : Text) → join sep (split sep s) ≡ s
  unfolding split
  join-split [] = unfold join in refl
  join-split (c ∷ s) = ground (
    arith,
    join-split s,
    split-ne-nil s,
    join-cons_first c (split sep s),
    join_nil-cons (split sep s),
  )

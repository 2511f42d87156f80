-- ===== src/Text/Sorting.antt =====
-- `sort` returns a permutation of its input, the same for every order of the input.
use mathlib.Core.Path.{subst}
use mathlib.Core.Logic.{∥∥₁_elim}
use mathlib.Core.List.{Permᴰ}
use mathlib.Core.List.Perm
use tao_core_go.Prelude.{
  Text, All, List, [], ◌∷◌, ◌≡◌, ◌≢◌, ◌↔◌, refl, arith, Perm, Bool-cases, inl, inr, ◌∙◌,
}
use tao_core_go.Text.Order.{text_leb, text_leb_total, text_leb_trans, text_leb_antisymm}
use tao_core_go.Text.{sort, insert}

insert_comm : (s t : Text) (us : List Text) → insert s (insert t us) ≡ insert t (insert s us)
unfolding insert
insert_comm s t [] = ground (arith, text_leb_total s t, text_leb_total t s, text_leb_antisymm s t)
insert_comm s t (u ∷ us) = ground (
  arith,
  insert_comm s t us,
  text_leb_total s t,
  text_leb_total t s,
  text_leb_antisymm s t,
  text_leb_trans s t u,
  text_leb_trans t s u,
)

insert-perm : (s : Text) (ts : List Text) → Perm (insert s ts) (s ∷ ts)
unfolding insert
insert-perm s [] = Perm.refl (s ∷ [])
insert-perm s (t ∷ ts) = elim (Bool-cases (text_leb s t)) [
  | inl le ↦ rw le (Perm.refl (s ∷ t ∷ ts))
  | inr gt ↦ rw gt (Perm.trans (Perm.cons t (insert-perm s ts)) (Perm.swap s t ts))
]

pub sort-perm : (ts : List Text) → Perm (sort ts) ts
unfolding sort
sort-perm [] = Perm.refl []
sort-perm (t ∷ ts) = Perm.trans (insert-perm t (sort ts)) (Perm.cons t (sort-perm ts))

texts_set : IsSet (List Text)
texts_set = hlevel

sort_of_permᴰ : {ss ts : List Text} → Permᴰ ss ts → sort ss ≡ sort ts
unfolding sort
sort_of_permᴰ Permᴰ.nil = refl
sort_of_permᴰ (Permᴰ.cons {l₁ = ss} {l₂ = ts} e p) = cc (e, sort_of_permᴰ p)
sort_of_permᴰ (Permᴰ.swap {a} {b} {l} e f) = rw (e, f) (insert_comm _ _ (sort l))
sort_of_permᴰ (Permᴰ.trans p q) = sort_of_permᴰ p ∙ sort_of_permᴰ q

-- Two lists have the same ascending order exactly when they are permutations of one another.
pub sort-eq_iff : (ss ts : List Text) → (sort ss ≡ sort ts) ↔ Perm ss ts
sort-eq_iff ss ts = (
  λ e. Perm.trans (Perm.symm (sort-perm ss)) (rw e (sort-perm ts)),
  λ p. ∥∥₁_elim p (texts_set _ _) sort_of_permᴰ,
)

module _ {κ} (P : Text → Type κ) where
  All-insert : (s : Text) (ts : List Text) → P s → All P ts → All P (insert s ts)
  unfolding insert
  All-insert s [] p h = (p, tt)
  All-insert s (t ∷ ts) p h = elim (Bool-cases (text_leb s t)) [
    | inl le ↦ rw le (p, h)
    | inr gt ↦ rw gt (h.0, All-insert s ts p h.1)
  ]

  pub All-sort : (ts : List Text) → All P ts → All P (sort ts)
  unfolding sort
  All-sort [] h = tt
  All-sort (t ∷ ts) h = All-insert t (sort ts) h.0 (All-sort ts h.1)

pub sort-ne-nil : (ts : List Text) → ts ≢ [] → sort ts ≢ []
sort-ne-nil ts ne e = ne (Perm.eq-nil (Perm.symm (subst (λ l. Perm l ts) e (sort-perm ts))))

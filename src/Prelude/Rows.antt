-- ===== src/Prelude/Rows.antt =====
-- Tables: which rows they hold, how often a test passes, and what inserts and updates do to that.
use tao_core_go.Prelude.{
  ◌+◌, ◌≤◌, Bool, true, false, none, some, List, [], ◌∷◌, ◌++◌, ◌≡◌, refl, sym, ap, ◌∙◌, ◌⊎◌, inl,
  inr, arith, if◌then◌else◌, find, filter, count, any, All, update_where, Bool-cases, Text, ◌==◌,
  text_eq_instance,
}
use mathlib.Core.Path.{subst}

module _ {A : Type 0} where
  -- The row stands in the table.
  abbrev pub In : A → List A → Type 0
  In x [] = ⊥
  In x (y ∷ ys) = (y ≡ x) ⊎ In x ys

module _ {A : Type 0} where
  pub In-find : (p : A → Bool) (xs : List A) (x : A) → find p xs ≡ some x → In x xs
  unfolding find
  In-find p [] x h = cc
  In-find p (y ∷ ys) x h = elim (Bool-cases (p y)) [
    | inl here ↦ inl (ground arith)
    | inr later ↦ inr (In-find p ys x (rw later at h))
  ]

  pub In-filter : (p : A → Bool) (xs : List A) (x : A) → In x (filter p xs) → In x xs × (p x ≡ true)
  unfolding filter
  In-filter p [] x h = absurd h
  In-filter p (y ∷ ys) x h = elim (Bool-cases (p y)) [
    | inl here ↦ from (In-filter p ys x) (rw here at h) here
    | inr later ↦ let (i, e) = In-filter p ys x (rw later at h) in (inr i, e)
  ]
    where
      from :
          (In x (filter p ys) → In x ys × (p x ≡ true))
          → In x (y ∷ filter p ys)
          → p y ≡ true
          → In x (y ∷ ys) × (p x ≡ true)
      from ih (inl e) here = (inl e, subst (λ z. p z ≡ true) e here)
      from ih (inr i) here = let (i', e) = ih i in (inr i', e)

  -- What holds of every row holds of one that stands in the table.
  pub All-In : (P : A → Type 0) (xs : List A) (x : A) → All P xs → In x xs → P x
  All-In P [] x a i = absurd i
  All-In P (y ∷ ys) x a (inl e) = subst P e a.0
  All-In P (y ∷ ys) x a (inr i) = All-In P ys x a.1 i

  pub In-append_left : (xs ys : List A) (x : A) → In x xs → In x (xs ++ ys)
  In-append_left [] ys x h = absurd h
  In-append_left (y ∷ xs) ys x (inl e) = inl e
  In-append_left (y ∷ xs) ys x (inr i) = inr (In-append_left xs ys x i)

  pub In-append_last : (xs : List A) (x : A) → In x (xs ++ x ∷ [])
  In-append_last [] x = inl refl
  In-append_last (y ∷ xs) x = inr (In-append_last xs x)

  -- A row that an update does not test stays as it is.
  pub In-update_where :
      (p : A → Bool) (f : A → A) (xs : List A) (x : A)
      → In x xs
      → p x ≡ false
      → In x (update_where p f xs)
  unfolding update_where
  In-update_where p f [] x h e = absurd h
  In-update_where p f (y ∷ xs) x (inl same) e =
      inl (subst (λ z. (if p z then f z else z) ≡ z) (sym same) (rw e) ∙ same)
  In-update_where p f (y ∷ xs) x (inr i) e = inr (In-update_where p f xs x i e)

  -- A row that it tests is replaced by its new version.
  pub In-update_where_hit :
      (p : A → Bool) (f : A → A) (xs : List A) (x : A)
      → In x xs
      → p x ≡ true
      → In (f x) (update_where p f xs)
  unfolding update_where
  In-update_where_hit p f [] x h e = absurd h
  In-update_where_hit p f (y ∷ xs) x (inl same) e =
      inl (subst (λ z. (if p z then f z else z) ≡ f z) (sym same) (rw e) ∙ ap f same)
  In-update_where_hit p f (y ∷ xs) x (inr i) e = inr (In-update_where_hit p f xs x i e)

  pub count_pos_of_In : (p : A → Bool) (xs : List A) (x : A) → In x xs → p x ≡ true → 1 ≤ count p xs
  unfolding count
  count_pos_of_In p [] x h e = absurd h
  count_pos_of_In p (y ∷ xs) x (inl same) e =
      let e' : p y ≡ true = subst (λ z. p z ≡ true) (sym same) e in rw e' (omega arith)
  count_pos_of_In p (y ∷ xs) x (inr i) e = ground (arith, count_pos_of_In p xs x i e)

  pub count-zero_In : (p : A → Bool) (xs : List A) (x : A) → count p xs ≡ 0 → In x xs → p x ≡ false
  count-zero_In p xs x none_pass i = elim (Bool-cases (p x)) [
    | inl e ↦ absurd (omega (arith, count_pos_of_In p xs x i e))
    | inr e ↦ e
  ]

  -- Where at most one row passes a test, any two that pass are the same row.
  pub In-unique :
      (p : A → Bool) (xs : List A) (x y : A)
      → count p xs ≤ 1
      → In x xs
      → In y xs
      → p x ≡ true
      → p y ≡ true
      → x ≡ y
  unfolding count
  In-unique p [] x y one i j ex ey = absurd i
  In-unique p (z ∷ zs) x y one (inl e) (inl f) ex ey = sym e ∙ f
  In-unique p (z ∷ zs) x y one (inl e) (inr j) ex ey =
      let ez : p z ≡ true = subst (λ t. p t ≡ true) (sym e) ex in
      absurd (omega (arith, count_pos_of_In p zs y j ey, rw ez at one))
  In-unique p (z ∷ zs) x y one (inr i) (inl f) ex ey =
      let ez : p z ≡ true = subst (λ t. p t ≡ true) (sym f) ey in
      absurd (omega (arith, count_pos_of_In p zs x i ex, rw ez at one))
  In-unique p (z ∷ zs) x y one (inr i) (inr j) ex ey = In-unique p zs x y (omega arith) i j ex ey

  pub count-update_where :
      (q p : A → Bool) (f : A → A) (xs : List A)
      → ((x : A) → In x xs → p x ≡ true → q (f x) ≡ q x)
      → count q (update_where p f xs) ≡ count q xs
  unfolding count update_where
  count-update_where q p f [] same = refl
  count-update_where q p f (x ∷ xs) same =
      let later = count-update_where q p f xs (λ y i. same y (inr i)) in
      elim (Bool-cases (p x)) [
        | inl hit ↦ rw hit (rw (same x (inl refl) hit) (rw later))
        | inr miss ↦ rw miss (rw later)
      ]

  -- An update after which no more rows pass a test.
  pub count-update_where_le :
      (q p : A → Bool) (f : A → A) (xs : List A)
      → ((x : A) → q (f x) ≡ true → q x ≡ true)
      → count q (update_where p f xs) ≤ count q xs
  unfolding count update_where
  count-update_where_le q p f [] fewer = omega arith
  count-update_where_le q p f (x ∷ xs) fewer =
      ground (arith, count-update_where_le q p f xs fewer, fewer x)

  pub count_append_one :
      (p : A → Bool) (xs : List A) (x : A)
      → count p (xs ++ x ∷ []) ≡ count p xs + (if p x then 1 else 0)
  unfolding count
  count_append_one p [] x = omega arith
  count_append_one p (y ∷ xs) x = omega (arith, count_append_one p xs x)

  -- Where no row passes a test, none passes a stronger one.
  pub count-zero_of_any :
      (p q : A → Bool) (xs : List A)
      → ((x : A) → q x ≡ true → p x ≡ true)
      → any p xs ≡ false
      → count q xs ≡ 0
  unfolding any count
  count-zero_of_any p q [] weaker h = refl
  count-zero_of_any p q (x ∷ xs) weaker h =
      ground (arith, weaker x, count-zero_of_any p q xs weaker)

-- A key of the rows is unique.
abbrev pub IsUnique : {A : Type 0} → (A → Text) → List A → Type 0
IsUnique key xs = (i : Text) → count (λ x. key x == i) xs ≤ 1

-- A search among new rows finds nothing of the old ones that a weaker test leaves out.
pub find_append_last :
    {A : Type 0} (p q : A → Bool) (xs : List A) (y : A)
    → ((x : A) → q x ≡ true → p x ≡ true)
    → any p xs ≡ false
    → find q (xs ++ y ∷ []) ≡ (if q y then some y else none)
unfolding find any
find_append_last p q [] y weaker h = refl
find_append_last p q (x ∷ xs) y weaker h =
    ground (arith, weaker x, find_append_last p q xs y weaker)

-- An update that keeps a test makes no row pass a stronger one where none passed.
pub find-update_where-none :
    {A : Type 0} (test q p : A → Bool) (f : A → A) (xs : List A)
    → ((x : A) → test (f x) ≡ test x)
    → ((x : A) → q x ≡ true → test x ≡ true)
    → any test xs ≡ false
    → find q (update_where p f xs) ≡ none
unfolding find any update_where
find-update_where-none test q p f [] keeps stronger h = refl
find-update_where-none test q p f (x ∷ xs) keeps stronger h = ground (
  arith,
  keeps x,
  stronger x,
  stronger (f x),
  find-update_where-none test q p f xs keeps stronger,
)

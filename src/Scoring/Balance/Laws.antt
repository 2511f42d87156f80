-- ===== src/Scoring/Balance/Laws.antt =====
-- The shuffle permutes, and the new identifiers name the options that the map says.
use mathlib.Core.List.{Nodup, Nodup-cons, Mem, mem-cons_self, mem-cons_of_mem}
use mathlib.Core.List.Perm
use tao_core_go.Prelude.{
  ℕ, zero, suc, ◌+◌, ◌-◌, ◌≤◌, ◌<◌, Text, Bool, true, false, Option, none, some, List, [], ◌∷◌, map,
  length, get_elem?, set, length-set, get_elem?_of_lt, get_elem?-set_same, set-perm, ◌≡◌, refl,
  Perm, arith, text_eq_iff, text_eq_refl, text_eq, ◌⊎◌, inl, inr, ltb, ◌∙◌, Option-cases,
  Bool-cases,
}
use tao_core_go.Models.{ItemOption}
use tao_core_go.Scoring.Balance.{
  too_many_options, no_randomness, ok, err, swap, shuffle, letter, IdentifierMap, lookup, relabel,
  balance_options_key,
}

-- What `rand.Int(reader, i + 1)` documents: its value lies in [0, i].
abbrev pub IsDraw : (ℕ → Option ℕ) → Type 0
IsDraw draw = (i j : ℕ) → draw i ≡ some j → j ≤ i

-- The generator gives a value for every place from `i` down to 1.
unfoldable pub draws_all : (ℕ → Option ℕ) → ℕ → Bool
draws_all draw zero = true
draws_all draw (suc i) = elim (draw (suc i)) [ none ↦ false | some j ↦ draws_all draw i ]

module _ {A : Type 0} where
  -- A result that permutes `xs`.
  abbrev pub Permutes : List A → List A → Type 0
  Permutes xs ys = Perm ys xs × (length ys ≡ length xs)

  swap-Permutes :
      (xs : List A) (i j : ℕ)
      → i < length xs
      → j < length xs
      → (ys : List A) × (swap xs i j ≡ ok ys) × Permutes xs ys
  unfolding swap
  swap-Permutes xs i j hi hj =
      let (a, ea) = get_elem?_of_lt xs i hi in
      let (b, eb) = get_elem?_of_lt xs j hj in
      let first = set-perm xs i a b ea in
      let second = set-perm (set xs i b) j b a (get_elem?-set_same xs i j b eb) in
      (
        set (set xs i b) j a,
        rw (ea, eb),
        (
          Perm.symm (Perm.cons_inv (Perm.trans first second)),
          length-set (set xs i b) j a ∙ length-set xs i b,
        ),
      )

  pub shuffle-Permutes :
      (draw : ℕ → Option ℕ) (i : ℕ) (xs : List A)
      → IsDraw draw
      → i < length xs
      → ((draws_all draw i ≡ false) × (shuffle draw i xs ≡ err no_randomness))
        ⊎ ((draws_all draw i ≡ true) × (ys : List A) × (shuffle draw i xs ≡ ok ys) × Permutes xs ys)
  unfolding shuffle draws_all
  shuffle-Permutes draw zero xs d h = inr (refl, xs, refl, (Perm.refl xs, refl))
  shuffle-Permutes draw (suc i) xs d h = elim (Option-cases (draw (suc i))) [
    | inl failed ↦ inl (rw (failed, draws_all) refl, rw failed)
    | inr (j, drawn) ↦
        let in_range : j < length xs = omega (arith, d (suc i) j drawn) in
        let (ys, swapped, kept) = swap-Permutes xs (suc i) j h in_range in
        elim (shuffle-Permutes draw i ys d (omega (arith, kept.1))) [
          | inl (lacks, failed) ↦ inl (rw (drawn, draws_all) lacks, rw (drawn, swapped) failed)
          | inr (all, zs, done, kept') ↦ inr (
            rw (drawn, draws_all) all,
            zs,
            rw (drawn, swapped) done,
            (Perm.trans kept'.0 kept.0, kept'.1 ∙ kept.1),
          )
        ]
  ]

lookup_fresh :
    (k : Text) (i : ℕ) (m : IdentifierMap) (os : List ItemOption)
    → ¬ Mem k (map (λ o. o.identifier) os)
    → lookup k (relabel i m os).1 ≡ lookup k m
unfolding lookup relabel
lookup_fresh k i m [] fresh = refl
lookup_fresh k i m (o ∷ os) fresh =
    let later =
      lookup_fresh k (suc i) ((o.identifier, letter i) ∷ m) os
        (λ mem. fresh (mem-cons_of_mem _ mem)) in
    elim (Bool-cases (text_eq o.identifier k)) [
      | inl same ↦ absurd (fresh (rw (← (text_eq_iff _ _).0 same) mem-cons_self))
      | inr other ↦ later ∙ rw other
    ]

-- The option at place `k` gets the letter of that place, keeps its text, and the map sends its
-- old identifier to that letter.
pub record IsRelabelled (k : ℕ) (o : ItemOption) (r : List ItemOption × IdentifierMap) (at : ℕ)
    : Type 0 where
  pub stands : get_elem? r.0 k ≡ some (record o { identifier = letter at })
  pub mapped : lookup o.identifier r.1 ≡ some (letter at)

module _ (o : ItemOption) (at : ℕ) where
  pub relabel-IsRelabelled :
      (i k : ℕ) (m : IdentifierMap) (os : List ItemOption)
      → at ≡ i + k
      → Nodup (map (λ o'. o'.identifier) os)
      → get_elem? os k ≡ some o
      → IsRelabelled k o (relabel i m os) at
  unfolding relabel lookup
  relabel-IsRelabelled i k m [] e nd h = cc
  relabel-IsRelabelled i zero m (p ∷ os) e nd h =
      let same_at : at ≡ i = omega arith in
      let same : p ≡ o = cc in
      let fresh =
        lookup_fresh p.identifier (suc i) ((p.identifier, letter i) ∷ m) os (Nodup-cons.0 nd).0 in
      let here : lookup p.identifier ((p.identifier, letter i) ∷ m) ≡ some (letter i) =
        rw (text_eq_refl p.identifier) in
      rw (same_at, ← same) (record { stands = refl; mapped = fresh ∙ here })
  relabel-IsRelabelled i (suc k) m (p ∷ os) e nd h =
      let later =
        relabel-IsRelabelled (suc i) k ((p.identifier, letter i) ∷ m) os (omega arith)
          (Nodup-cons.0 nd).1 h in
      record { stands = later.stands; mapped = later.mapped }

-- The result comes from a permutation of the options, each relabelled by its new place.
pub record IsBalanced (options : List ItemOption) (r : List ItemOption × IdentifierMap)
    : Type 0 where
  pub shuffled : List ItemOption
  pub kept : Permutes options shuffled
  pub relabelled : (k : ℕ) (o : ItemOption) → get_elem? shuffled k ≡ some o → IsRelabelled k o r k

module _ (draw : ℕ → Option ℕ) (bounded : IsDraw draw) where
  -- What balancing gives: how many options there are and what the generator draws decide which
  abbrev pub Balances : List ItemOption → Type 0
  Balances options =
      ((26 < length options) × (balance_options_key draw options ≡ err too_many_options))
      ⊎ ((length options ≤ 26)
          × (((draws_all draw (length options - 1) ≡ false)
                × (balance_options_key draw options ≡ err no_randomness))
              ⊎ ((draws_all draw (length options - 1) ≡ true)
                  × (r : List ItemOption × IdentifierMap) × (balance_options_key draw options
                      ≡ ok r)
                  × IsBalanced options r)))

  IsBalanced-cons :
      (o : ItemOption) (os : List ItemOption)
      → ltb 26 (length (o ∷ os)) ≡ false
      → Nodup (map (λ o'. o'.identifier) (o ∷ os))
      → ((draws_all draw (length os) ≡ false)
          × (balance_options_key draw (o ∷ os) ≡ err no_randomness))
        ⊎ ((draws_all draw (length os) ≡ true)
            × (r : List ItemOption × IdentifierMap) × (balance_options_key draw (o ∷ os) ≡ ok r)
            × IsBalanced (o ∷ os) r)
  unfolding balance_options_key
  IsBalanced-cons o os few nd =
      elim (shuffle-Permutes draw (length os) (o ∷ os) bounded (omega arith)) [
        | inl (lacks, failed) ↦ inl (lacks, rw few (rw failed))
        | inr (all, ys, done, kept) ↦ inr (
          all,
          relabel 0 [] ys,
          rw few (rw done),
          record {
            shuffled = ys;
            kept = kept;
            relabelled = λ k p h.
                relabel-IsRelabelled p k 0 k [] ys (omega arith)
                  (Perm.nodup (Perm.symm (Perm.map _ kept.0)) nd) h;
          },
        )
      ]

  -- For a generator that draws within its bound and options with distinct identifiers, balancing
  -- more than 26 options fails as too many; balancing at most 26 fails for want of randomness
  -- exactly where the generator fails for a place after the first, and otherwise gives a
  -- permutation of the options in which the one at each place has the letter of that place, keeps
  -- its text, and is mapped to that letter.
  pub balance_options_key-IsBalanced :
      (options : List ItemOption) → Nodup (map (λ o. o.identifier) options) → Balances options
  balance_options_key-IsBalanced [] nd = inr (
    omega arith,
    inr (
      unfold draws_all in refl,
      ([], []),
      unfold balance_options_key in refl,
      record { shuffled = []; kept = (Perm.refl [], refl); relabelled = λ k o h. cc },
    ),
  )
  balance_options_key-IsBalanced (o ∷ os) nd = elim (Bool-cases (ltb 26 (length (o ∷ os)))) [
    | inl many ↦ inl (ground arith, unfold balance_options_key in rw many)
    | inr few ↦
        let before_last : length (o ∷ os) - 1 ≡ length os = omega arith in
        inr (ground arith, rw before_last (IsBalanced-cons o os few nd))
  ]

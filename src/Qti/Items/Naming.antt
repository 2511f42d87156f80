-- ===== src/Qti/Items/Naming.antt =====
-- The options that the parts of an answer name, before and after the balancing.
use mathlib.Core.List.Perm
use mathlib.Core.Path.{subst}
use tao_core_go.Prelude.{
  ℕ, suc, ◌≤◌, Text, true, Option, some, List, [], ◌∷◌, ◌≡◌, ◌⊎◌, inl, inr, refl, sym, ap, ◌∙◌,
  arith, get_elem?, length, ltb, text_eq, text_eq_iff, Bool-cases, Option-cases,
}
use tao_core_go.Text.{len, is_empty, trim_space, split, join}
use tao_core_go.Models.{ItemOption}
use tao_core_go.Scoring.Balance.{
  letter, IdentifierMap, lookup, shuffle, relabel, balance_options_key, Balanced, no_randomness,
  too_many_options,
}
use tao_core_go.Scoring.Balance
use tao_core_go.Scoring.Balance.Laws.{IsDraw, Permutes, shuffle-Permutes}
use tao_core_go.Qti.Items.{comma, map_parts, map_answer}

-- A part of the old answer and the part of the new one name the same option: the one at `place`
-- of the shuffled options had the old identifier and has the new one.
pub record Names (shuffled new : List ItemOption) (part mapped : Text) : Type 0 where
  pub place : ℕ
  pub option : ItemOption
  pub stood : get_elem? shuffled place ≡ some option
  pub was : option.identifier ≡ part
  pub stands : get_elem? new place ≡ some (record option { identifier = mapped })

-- A name found in the map of the new identifiers was found before, or is that of an option.
lookup-relabel :
    (i : ℕ) (m : IdentifierMap) (os : List ItemOption) (k v : Text)
    → lookup k (relabel i m os).1 ≡ some v
    → (lookup k m ≡ some v) ⊎ Names os (relabel i m os).0 k v
unfolding relabel lookup
lookup-relabel i m [] k v h = inl h
lookup-relabel i m (o ∷ os) k v h =
    elim (lookup-relabel (suc i) ((o.identifier, letter i) ∷ m) os k v h) [
      | inl earlier ↦ elim (Bool-cases (text_eq o.identifier k)) [
        | inl same ↦
            let e : some (letter i) ≡ some v = rw same at earlier in
            inr (record {
              place = 0;
              option = o;
              stood = refl;
              was = (text_eq_iff o.identifier k).0 same;
              stands =
                  let e' : letter i ≡ v = cc in ap (λ t. some (record o { identifier = t })) e';
            })
        | inr other ↦ inl (rw other at earlier)
      ]
      | inr later ↦ inr (record {
        place = suc later.place;
        option = later.option;
        stood = later.stood;
        was = later.was;
        stands = later.stands;
      })
    ]

-- The shuffled options and their new form, with new identifiers only
pub record IsShuffled (options new : List ItemOption) (m : IdentifierMap) : Type 0 where
  pub shuffled : List ItemOption
  pub kept : Permutes options shuffled
  pub relabelled : (new, m) ≡ relabel 0 [] shuffled

pub balance-IsShuffled :
    (draw : ℕ → Option ℕ) (options new : List ItemOption) (m : IdentifierMap)
    → IsDraw draw
    → balance_options_key draw options ≡ Balance.ok (new, m)
    → IsShuffled options new m
unfolding balance_options_key
balance-IsShuffled draw [] new m d h = record {
  shuffled = [];
  kept = (Perm.refl [], refl);
  relabelled = cc;
}
balance-IsShuffled draw (o ∷ os) new m d h = elim (Bool-cases (ltb 26 (length (o ∷ os)))) [
  | inl many ↦ let k = rw many at h in cc
  | inr few ↦ elim (shuffle-Permutes draw (length os) (o ∷ os) d (omega arith)) [
    | inl (lacks, failed) ↦ let k = rw (few, failed) at h in cc
    | inr (all, ys, done, kept) ↦
        let k : Balance.ok (relabel 0 [] ys) ≡ Balance.ok (new, m) = rw (few, done) at h in
        record { shuffled = ys; kept = kept; relabelled = cc }
  ]
]

nothing : (k v : Text) → lookup k [] ≡ some v → ⊥
unfolding lookup
nothing k v h = cc

-- The parts of the answer, one by one
pub data AllName (shuffled new : List ItemOption) : List Text → List Text → Type 0 where
  no_parts : AllName shuffled new [] []
  next_part :
      {part mapped : Text} {parts maps : List Text}
      → Names shuffled new (trim_space part) mapped
      → AllName shuffled new parts maps
      → AllName shuffled new (part ∷ parts) (mapped ∷ maps)

map_parts-AllName :
    (shuffled : List ItemOption) (parts maps : List Text)
    → map_parts (relabel 0 [] shuffled).1 parts ≡ some maps
    → AllName shuffled (relabel 0 [] shuffled).0 parts maps
unfolding map_parts
map_parts-AllName shuffled [] maps h =
    let e : [] ≡ maps = cc in subst (AllName shuffled (relabel 0 [] shuffled).0 []) e no_parts
map_parts-AllName shuffled (part ∷ parts) maps h =
    let m = (relabel 0 [] shuffled).1 in
    elim (Option-cases (lookup (trim_space part) m)) [
      | inl missing ↦ let k = rw (missing, map_parts) at h in cc
      | inr (mapped, found) ↦ elim (Option-cases (map_parts m parts)) [
        | inl failed ↦ let k = rw (found, failed, map_parts) at h in cc
        | inr (rest, done) ↦
            let k : some (mapped ∷ rest) ≡ some maps = rw (found, done, map_parts) at h in
            let e : mapped ∷ rest ≡ maps = cc in
            let named : Names shuffled (relabel 0 [] shuffled).0 (trim_space part) mapped =
              elim (lookup-relabel 0 [] shuffled (trim_space part) mapped found) [
                | inl earlier ↦ absurd (nothing (trim_space part) mapped earlier)
                | inr named ↦ named
              ] in
            subst (AllName shuffled (relabel 0 [] shuffled).0 (part ∷ parts)) e
              (next_part named (map_parts-AllName shuffled parts rest done))
      ]
    ]

-- The answer, empty where there was none
pub data IsMapped (shuffled new : List ItemOption) (answer : Text) : Text → Type 0 where
  no_answer : answer ≡ [] → IsMapped shuffled new answer []
  mapped_answer :
      (maps : List Text)
      → AllName shuffled new (split comma answer) maps
      → len (join comma maps) ≤ 255
      → IsMapped shuffled new answer (join comma maps)

nil_of_empty : (t : Text) → is_empty t ≡ true → t ≡ []
nil_of_empty [] h = refl
nil_of_empty (c ∷ t) h = cc

pub map_answer-IsMapped :
    (shuffled : List ItemOption) (answer answer' : Text)
    → map_answer (relabel 0 [] shuffled).1 answer ≡ some answer'
    → IsMapped shuffled (relabel 0 [] shuffled).0 answer answer'
unfolding map_answer
map_answer-IsMapped shuffled answer answer' h =
    let r = relabel 0 [] shuffled in
    elim (Bool-cases (is_empty answer)) [
      | inl blank ↦
          let k : some answer ≡ some answer' = rw (blank, map_answer) at h in
          let e : [] ≡ answer' = sym (nil_of_empty answer blank) ∙ (cc) in
          subst (IsMapped shuffled r.0 answer) e (no_answer (nil_of_empty answer blank))
      | inr given ↦ elim (Option-cases (map_parts r.1 (split comma answer))) [
        | inl failed ↦ let k = rw (given, failed, map_answer) at h in cc
        | inr (maps, done) ↦ elim (Bool-cases (ltb 255 (len (join comma maps)))) [
          | inl long ↦ let k = rw (given, done, long, map_answer) at h in cc
          | inr short ↦
              let k : some (join comma maps) ≡ some answer' =
                rw (given, done, short, map_answer) at h in
              subst (IsMapped shuffled r.0 answer) (cc) (
                mapped_answer maps (map_parts-AllName shuffled (split comma answer) maps done)
                  (ground arith))
        ]
      ]
    ]

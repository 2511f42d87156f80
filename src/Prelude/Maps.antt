-- ===== src/Prelude/Maps.antt =====
-- Go maps with keys of text, as association lists in which a key stands once.
use mathlib.Core.Path.{◌≡◌, refl}
use mathlib.Core.List.{List, [], ◌∷◌}
use mathlib.Core.Option.{Option, none, some}
use native.Mathlib.Omega.{arith}
use tao_core_go.Prelude.Lists.{All}
use tao_core_go.Prelude.Tests.{Text, text_eq, text_eq_iff, if◌then◌else◌}

module _ {V : Type 0} where
  unfoldable pub get : Text → List (Text × V) → Option V
  get k [] = none
  get k (entry ∷ m) = if text_eq entry.0 k then some entry.1 else get k m

  unfoldable pub put : Text → V → List (Text × V) → List (Text × V)
  put k v [] = (k, v) ∷ []
  put k v (entry ∷ m) =
      let rest = put k v m in if text_eq entry.0 k then (k, v) ∷ m else entry ∷ rest

  pub get-put :
      (k j : Text) (v : V) (m : List (Text × V))
      → get j (put k v m) ≡ (if text_eq k j then some v else get j m)
  unfolding get put
  get-put k j v [] = refl
  get-put k j v (entry ∷ m) =
      ground (arith, text_eq_iff k j, text_eq_iff entry.0 k, text_eq_iff entry.0 j, get-put k j v m)

  pub All-put :
      (P : Text × V → Type 0) (k : Text) (v : V) (m : List (Text × V))
      → P (k, v)
      → All P m
      → All P (put k v m)
  unfolding put
  All-put P k v [] p a = (p, tt)
  All-put P k v (entry ∷ m) p a = ground (arith, All-put P k v m p a.1)

  pub All-get :
      (P : V → Type 0) (k : Text) (v : V) (m : List (Text × V))
      → All (λ entry. P entry.1) m
      → get k m ≡ some v
      → P v
  unfolding get
  All-get P k v [] a h = cc
  All-get P k v (entry ∷ m) a h = ground (arith, All-get P k v m a.1)

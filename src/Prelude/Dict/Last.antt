-- ===== src/Prelude/Dict/Last.antt =====
-- Pairs that are inserted into a map one after the other: the last value of a key wins.
use Prim.Native.String.{String}
use mathlib.Core.Path.{◌≡◌, refl, sym, ap, ◌∙◌}
use mathlib.Core.Option.{Option, none, some}
use mathlib.Core.List.{List, [], ◌∷◌}
use native.Mathlib.Omega.{arith}
use text.Mathlib.Text.{◌==◌}
use text.Mathlib.TextEquality.{eq_iff}
use rsb.Prelude.Tests.{if◌then◌else◌, Bool-cases}
use mathlib.Core.Logic.{inl, inr}
use mathlib.Core.Bool.{false}
use rsb.Prelude.Dict.{Dict, lookup, insert, lookup-insert}

module _ {V : Type 0} where
  -- The last value of `k` among the pairs, and `d` if there is none.
  abbrev pub last_value : String → List (String × V) → Option V → Option V
  last_value k [] d = d
  last_value k ((j, v) ∷ ps) d = last_value k ps (if j == k then some v else d)

  abbrev pub inserted : List (String × V) → Dict V → Dict V
  inserted [] m = m
  inserted ((k, v) ∷ ps) m = inserted ps (insert k v m)

  abbrev pub Unique : Dict V → Type 0
  Unique [] = Unit
  Unique ((k, v) ∷ m) = (lookup k m ≡ none) × Unique m

  found_or : Option V → Option V → Option V
  found_or none d = d
  found_or (some v) d = some v

  pub lookup-inserted :
      (k : String) (ps : List (String × V)) (m : Dict V)
      → lookup k (inserted ps m) ≡ last_value k ps (lookup k m)
  lookup-inserted k [] m = refl
  lookup-inserted k ((j, v) ∷ ps) m =
      lookup-inserted k ps (insert j v m) ∙ ap (last_value k ps) (lookup-insert j k v m)

  insert-Unique : (k : String) (v : V) (m : Dict V) → Unique m → Unique (insert k v m)
  unfolding insert lookup
  insert-Unique k v [] u = (refl, tt)
  insert-Unique k v ((j, w) ∷ m) (fresh, u) =
      let rest = insert-Unique k v m u in
      elim (Bool-cases (j == k)) [
        | inl e ↦
            let same : j ≡ k = (eq_iff j k).0 e in
            rw e (ap (λ (x : String). lookup x m) (sym same) ∙ fresh, u)
        | inr e ↦
            let other : (k == j) ≡ false = ground (arith, eq_iff j k, eq_iff k j, e) in
            rw e (rw (lookup-insert k j v m, other) fresh, rest)
      ]

  inserted-Unique : (ps : List (String × V)) (m : Dict V) → Unique m → Unique (inserted ps m)
  inserted-Unique [] m u = u
  inserted-Unique ((k, v) ∷ ps) m u = inserted-Unique ps (insert k v m) (insert-Unique k v m u)

  last_value-Unique :
      (k : String) (m : Dict V) (d : Option V)
      → Unique m
      → last_value k m d ≡ found_or (lookup k m) d
  unfolding lookup found_or
  last_value-Unique k [] d u = refl
  last_value-Unique k ((j, v) ∷ m) d (fresh, u) = elim (Bool-cases (j == k)) [
    | inl e ↦
        let absent : lookup k m ≡ none =
          ap (λ (x : String). lookup x m) (sym ((eq_iff j k).0 e)) ∙ fresh in
        rw e (last_value-Unique k m (some v) u ∙ rw absent refl)
    | inr e ↦ rw e (last_value-Unique k m d u)
  ]

  last_value-found_or :
      (k : String) (ps : List (String × V)) (o d : Option V)
      → last_value k ps (found_or o d) ≡ found_or (last_value k ps o) d
  unfolding found_or
  last_value-found_or k [] o d = refl
  last_value-found_or k ((j, v) ∷ ps) o d = elim (Bool-cases (j == k)) [
    | inl e ↦ rw e (last_value-found_or k ps (some v) d)
    | inr e ↦ rw e (last_value-found_or k ps o d)
  ]

  -- Pairs that are first collected in a map of their own give the same.
  pub lookup-inserted_map :
      (k : String) (ps : List (String × V)) (m : Dict V)
      → lookup k (inserted (inserted ps []) m) ≡ last_value k ps (lookup k m)
  unfolding lookup found_or
  lookup-inserted_map k ps m =
      let d = lookup k m in
      lookup-inserted k (inserted ps []) m
      ∙ last_value-Unique k (inserted ps []) d (inserted-Unique ps [] tt)
      ∙ ap (λ (o : Option V). found_or o d) (lookup-inserted k ps [])
      ∙ sym (last_value-found_or k ps none d)

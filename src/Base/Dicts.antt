-- ===== src/Base/Dicts.antt =====
-- std::map<std::string, V> as an association list in the order of the keys: `insert` writes over
-- the value of a key that is there and otherwise puts the new entry before the first greater key.
use Prim.Native.Nat.{ℕ, ◌+◌}
use Prim.Native.String.{String, compare as compare_text}
use mathlib.Core.Path.{◌≡◌, refl}
use mathlib.Core.Bool.{Bool, true, false}
use mathlib.Core.Option.{Option, none, some}
use mathlib.Core.List.{List, [], ◌∷◌}
use native.Mathlib.Omega.{arith}
use text.Mathlib.Text.{◌==◌, is_lt}
use text.Mathlib.TextEquality.{eq_iff}
use astartis_codex_control_p.Base.Tests.{if◌then◌else◌, is_some}
use astartis_codex_control_p.Base.Lists.{length, count_if}

abbrev pub Dict {ℓ} : Type ℓ → Type ℓ
Dict V = List (String × V)

abbrev pub lt_text : String → String → Bool
lt_text s t = is_lt (compare_text s t)

module _ {ℓ} {V : Type ℓ} where
  -- m.find(k)
  unfoldable pub lookup : String → Dict V → Option V
  lookup k [] = none
  lookup k ((j, v) ∷ m) = if j == k then some v else lookup k m

  unfoldable pub replace : String → V → Dict V → Dict V
  replace k v [] = []
  replace k v ((j, w) ∷ m) = if j == k then (j, v) ∷ m else (j, w) ∷ replace k v m

  unfoldable pub place : String → V → Dict V → Dict V
  place k v [] = (k, v) ∷ []
  place k v ((j, w) ∷ m) = if lt_text k j then (k, v) ∷ (j, w) ∷ m else (j, w) ∷ place k v m

  -- m[k] = v
  unfoldable pub insert : String → V → Dict V → Dict V
  unfolding lookup replace place
  insert k v m = if is_some (lookup k m) then replace k v m else place k v m

  -- m.erase(k)
  unfoldable pub erase : String → Dict V → Dict V
  erase k [] = []
  erase k ((j, w) ∷ m) = let rest = erase k m in if j == k then rest else (j, w) ∷ rest

  pub lookup-replace :
      (k j : String) (v : V) (m : Dict V)
      → is_some (lookup k m) ≡ true
      → lookup j (replace k v m) ≡ (if k == j then some v else lookup j m)
  unfolding lookup replace
  lookup-replace k j v [] h = ground arith
  lookup-replace k j v ((i, w) ∷ m) h =
      ground (arith, eq_iff k j, eq_iff i k, eq_iff i j, lookup-replace k j v m)

  pub lookup-place :
      (k j : String) (v : V) (m : Dict V)
      → is_some (lookup k m) ≡ false
      → lookup j (place k v m) ≡ (if k == j then some v else lookup j m)
  unfolding lookup place
  lookup-place k j v [] h = ground arith
  lookup-place k j v ((i, w) ∷ m) h =
      ground (arith, eq_iff k j, eq_iff i k, eq_iff i j, lookup-place k j v m)

  pub lookup-insert :
      (k j : String) (v : V) (m : Dict V)
      → lookup j (insert k v m) ≡ (if k == j then some v else lookup j m)
  unfolding insert
  lookup-insert k j v m = ground (arith, lookup-replace k j v m, lookup-place k j v m)

  pub lookup-erase :
      (k j : String) (m : Dict V) → lookup j (erase k m) ≡ (if k == j then none else lookup j m)
  unfolding lookup erase
  lookup-erase k j [] = ground arith
  lookup-erase k j ((i, w) ∷ m) =
      ground (arith, eq_iff k j, eq_iff i k, eq_iff i j, lookup-erase k j m)

  pub lookup-insert_self : (k : String) (v : V) (m : Dict V) → lookup k (insert k v m) ≡ some v
  lookup-insert_self k v m = ground (arith, lookup-insert k k v m, eq_iff k k)

  abbrev pub values_where : (V → Bool) → Dict V → ℕ
  values_where p m = count_if (λ kv. p kv.1) m

  -- Writing over one entry moves the count by what that entry counted before and counts now.
  pub values_where-replace :
      (p : V → Bool) (k : String) (v w : V) (m : Dict V)
      → lookup k m ≡ some w
      → values_where p (replace k v m) + (if p w then 1 else 0)
        ≡ values_where p m + (if p v then 1 else 0)
  unfolding lookup replace
  values_where-replace p k v w [] h = ground arith
  values_where-replace p k v w ((i, u) ∷ m) h = ground (arith, values_where-replace p k v w m)

  pub values_where-insert :
      (p : V → Bool) (k : String) (v w : V) (m : Dict V)
      → lookup k m ≡ some w
      → values_where p (insert k v m) + (if p w then 1 else 0)
        ≡ values_where p m + (if p v then 1 else 0)
  unfolding insert
  values_where-insert p k v w m h = ground (arith, values_where-replace p k v w m h)

  pub values_where-place :
      (p : V → Bool) (k : String) (v : V) (m : Dict V)
      → values_where p (place k v m) ≡ values_where p m + (if p v then 1 else 0)
  unfolding place
  values_where-place p k v [] = ground arith
  values_where-place p k v ((i, u) ∷ m) = ground (arith, values_where-place p k v m)

  pub values_where-insert_new :
      (p : V → Bool) (k : String) (v : V) (m : Dict V)
      → lookup k m ≡ none
      → values_where p (insert k v m) ≡ values_where p m + (if p v then 1 else 0)
  unfolding insert
  values_where-insert_new p k v m h = ground (arith, values_where-place p k v m)

  pub length-replace : (k : String) (v : V) (m : Dict V) → length (replace k v m) ≡ length m
  unfolding replace
  length-replace k v [] = refl
  length-replace k v ((i, u) ∷ m) = ground (arith, length-replace k v m)

  pub length-place : (k : String) (v : V) (m : Dict V) → length (place k v m) ≡ length m + 1
  unfolding place
  length-place k v [] = refl
  length-place k v ((i, u) ∷ m) = ground (arith, length-place k v m)

  pub length-insert :
      (k : String) (v : V) (m : Dict V)
      → length (insert k v m) ≡ (if is_some (lookup k m) then length m else length m + 1)
  unfolding insert
  length-insert k v m = ground (arith, length-replace k v m, length-place k v m)

pub ruleset dict_laws = (lookup-insert, lookup-erase)

ordered_keys :
    insert {V = ℕ} "b" 1 (insert "c" 2 (insert "a" 3 (insert "b" 4 [])))
    ≡ ("a", 3) ∷ ("b", 1) ∷ ("c", 2) ∷ []
unfolding insert
ordered_keys = refl

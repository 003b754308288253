-- ===== src/Prelude/Dict.antt =====
-- A Python dict, and a database table with a primary key: pairs in the order of insertion. A write
-- to a key that is present leaves its place as it is, as both do.
use Prim.Native.String.{String}
use mathlib.Core.Path.{◌≡◌, refl}
use mathlib.Core.Option.{Option, none, some}
use mathlib.Core.List.{List, [], ◌∷◌, map}
use native.Mathlib.Omega.{arith}
use text.Mathlib.Text.{◌==◌}
use text.Mathlib.TextEquality.{eq_iff}
use text.Mathlib.TextPositions.{eq_refl}
use codex_test.Prelude.Tests.{if◌then◌else◌}

abbrev pub Dict {ℓ} : Type ℓ → Type ℓ
Dict V = List (String × V)

module _ {ℓ} {V : Type ℓ} where
  -- `d.get(k)`
  unfoldable pub lookup : String → Dict V → Option V
  lookup k [] = none
  lookup k ((j, v) ∷ d) = if j == k then some v else lookup k d

  -- `d[k] = v`
  unfoldable pub insert : String → V → Dict V → Dict V
  insert k v [] = (k, v) ∷ []
  insert k v ((j, w) ∷ d) = if j == k then (k, v) ∷ d else (j, w) ∷ insert k v d

  -- `d.values()`
  abbrev pub values : Dict V → List V
  values = map (λ e. e.1)

  pub lookup-insert :
      (k j : String) (v : V) (d : Dict V)
      → lookup j (insert k v d) ≡ (if k == j then some v else lookup j d)
  unfolding lookup insert
  lookup-insert k j v [] = refl
  lookup-insert k j v ((i, w) ∷ d) =
      ground (arith, eq_iff k j, eq_iff i k, eq_iff i j, lookup-insert k j v d)

  pub lookup-insert_self : (k : String) (v : V) (d : Dict V) → lookup k (insert k v d) ≡ some v
  lookup-insert_self k v d = simp (lookup-insert, eq_refl)

  -- No key stands twice.
  abbrev pub IsKeyed : Dict V → Type ℓ
  IsKeyed [] = Unit
  IsKeyed ((k, v) ∷ d) = (lookup k d ≡ none) × IsKeyed d

  pub insert-IsKeyed : (k : String) (v : V) (d : Dict V) → IsKeyed d → IsKeyed (insert k v d)
  unfolding lookup insert
  insert-IsKeyed k v [] h = (refl, tt)
  insert-IsKeyed k v ((j, w) ∷ d) h =
      ground (arith, eq_iff j k, eq_iff k j, lookup-insert k j v d, insert-IsKeyed k v d h.1)

  -- `{f(v): v for v in rows}`, on top of a dict.
  unfoldable pub rebuild : (V → String) → Dict V → List V → Dict V
  rebuild f d [] = d
  rebuild f d (v ∷ vs) = rebuild f (insert (f v) v d) vs

  -- Each row stands under its own name.
  abbrev pub IsNamed : (V → String) → Dict V → Type ℓ
  IsNamed f [] = Unit
  IsNamed f ((k, v) ∷ d) = (f v ≡ k) × IsNamed f d

  pub insert-IsNamed :
      (f : V → String) (v : V) (d : Dict V) → IsNamed f d → IsNamed f (insert (f v) v d)
  unfolding insert
  insert-IsNamed f v [] h = (refl, tt)
  insert-IsNamed f v ((j, w) ∷ d) h = ground (arith, insert-IsNamed f v d h.1)

  pub insert-IsNamed_at :
      (f : V → String) (k : String) (v : V) (d : Dict V)
      → f v ≡ k
      → IsNamed f d
      → IsNamed f (insert k v d)
  unfolding insert
  insert-IsNamed_at f k v [] e h = (e, tt)
  insert-IsNamed_at f k v ((j, w) ∷ d) e h = ground (arith, insert-IsNamed_at f k v d e h.1)

  pub lookup-IsNamed :
      (f : V → String) (k : String) (v : V) (d : Dict V)
      → IsNamed f d
      → lookup k d ≡ some v
      → f v ≡ k
  unfolding lookup
  lookup-IsNamed f k v [] n h = cc
  lookup-IsNamed f k v ((j, w) ∷ d) n h = ground (arith, lookup-IsNamed f k v d n.1, eq_iff j k)

  abbrev pub or_else : Option V → Option V → Option V
  or_else none o = o
  or_else (some v) o = some v

  pub lookup-rebuild :
      (f : V → String) (k : String) (d acc : Dict V)
      → IsKeyed d
      → IsNamed f d
      → lookup k (rebuild f acc (values d)) ≡ or_else (lookup k d) (lookup k acc)
  unfolding lookup rebuild
  lookup-rebuild f k [] acc u n = refl
  lookup-rebuild f k ((j, v) ∷ d) acc u n = ground (
    arith,
    lookup-rebuild f k d (insert (f v) v acc) u.1 n.1,
    lookup-insert (f v) k v acc,
    eq_iff j k,
    eq_iff (f v) k,
  )

  -- `{k: v for k, v in rows}`, on top of a dict.
  unfoldable pub rebuild_pairs : Dict V → Dict V → Dict V
  rebuild_pairs d [] = d
  rebuild_pairs d ((k, v) ∷ rows) = rebuild_pairs (insert k v d) rows

  pub lookup-rebuild_pairs :
      (k : String) (d acc : Dict V)
      → IsKeyed d
      → lookup k (rebuild_pairs acc d) ≡ or_else (lookup k d) (lookup k acc)
  unfolding lookup rebuild_pairs
  lookup-rebuild_pairs k [] acc u = refl
  lookup-rebuild_pairs k ((j, v) ∷ d) acc u =
      ground
        (arith, lookup-rebuild_pairs k d (insert j v acc) u.1, lookup-insert j k v acc, eq_iff j k)

  pub or_else-none : (o : Option V) → or_else o none ≡ o
  or_else-none none = refl
  or_else-none (some v) = refl

-- ===== src/Tests/Context.antt =====
-- Runs of liandanlu_native/context.py.
use codex_test.Prelude.{◌≡◌, some, inl, [], ◌∷◌, arith, refl}
use codex_test.Prelude.Int.{pos, sub_ℤ}
use codex_test.Context.{Referent, ReferentStack, resolve}
use codex_test.Context.Bounds.{IsStack}
use codex_test.Context.Choice.{IsClear, resolve-IsClear_iff}

abbrev shown : ReferentStack
shown =
    record { object_ref = "note"; source = "screen"; score = pos 900000 }
    ∷ record { object_ref = "song"; source = "media"; score = pos 500000 }
    ∷ []

shown-IsStack : IsStack shown
shown-IsStack = record { bounded = omega arith; distinct = (refl, (refl, tt)) }

abbrev note : Referent
note = record { object_ref = "note"; source = "screen"; score = pos 900000 }

note-IsClear : IsClear (pos 850000) (pos 120000) shown note
unfolding sub_ℤ
note-IsClear = record {
  among = inl refl;
  good = refl;
  apart = (λ other. absurd (other refl), (λ other. refl, tt));
}

resolve-IsClear_iff_example : resolve (pos 850000) (pos 120000) shown ≡ some "note"
resolve-IsClear_iff_example =
    (resolve-IsClear_iff (pos 850000) (pos 120000) shown "note" refl shown-IsStack).1
      (note, refl, note-IsClear)

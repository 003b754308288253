-- ===== src/Context/Choice.antt =====
-- When `ReferentStack.resolve` of liandanlu_native/context.py takes a referent for the one meant.
use codex_test.Prelude.{
  ◌+◌, ◌≡◌, ◌≢◌, ◌↔◌, refl, sym, ap, ◌∙◌, subst, String, true, false, some, List, [], ◌∷◌, arith,
  inl, inr, eq_iff, Bool-cases, leb, All,
}
use codex_test.Prelude.Int.{ℤ, pos, pos_part, neg_part, ltb_ℤ, sub_ℤ}
use codex_test.Context.Bounds.{IsDistinct, IsStack}
use codex_test.Context.{Referent, ReferentStack, ranked, resolve, resolve_ranked}
use codex_test.Context.Ranked.{
  Among, Below, Descending, All-ranked, ranked-Descending, ranked-Among, All-of_ranked,
  Among-ranked, ranked-IsDistinct, Below-Among, unmentioned,
}

-- What a difference is, without subtraction.
sub_ℤ_lem :
    (a b : ℤ)
    → pos_part (sub_ℤ a b) + (pos_part b + neg_part a)
      ≡ neg_part (sub_ℤ a b) + (pos_part a + neg_part b)
unfolding sub_ℤ
sub_ℤ_lem a b = elim (Bool-cases (leb (pos_part b + neg_part a) (pos_part a + neg_part b))) [
  | inl up ↦ ground (arith, up)
  | inr down ↦ ground (arith, down)
]

-- A smaller score is further away.
gap_grows :
    (a b c gap : ℤ)
    → ltb_ℤ b c ≡ false
    → ltb_ℤ (sub_ℤ a b) gap ≡ false
    → ltb_ℤ (sub_ℤ a c) gap ≡ false
gap_grows a b c gap h k = ground (arith, h, k, sub_ℤ_lem a b, sub_ℤ_lem a c)

-- The referent `first` of the items is good enough, and all items of other objects are behind it by the
-- gap at least.
pub record IsClear (minimum ambiguity_gap : ℤ) (items : ReferentStack) (first : Referent)
    : Type 0 where
  pub among : Among first items
  pub good : ltb_ℤ first.score minimum ≡ false
  pub apart :
      All
        (λ y.
          y.object_ref ≢ first.object_ref → ltb_ℤ (sub_ℤ first.score y.score) ambiguity_gap ≡ false)
        items

behind :
    (a b : Referent) (gap : ℤ) (ys : List Referent)
    → ltb_ℤ (sub_ℤ a.score b.score) gap ≡ false
    → Below b ys
    → All (λ y. y.object_ref ≢ a.object_ref → ltb_ℤ (sub_ℤ a.score y.score) gap ≡ false) ys
behind a b gap [] h hs = tt
behind a b gap (y ∷ ys) h hs =
    (λ _. gap_grows a.score b.score y.score gap hs.0 h, behind a b gap ys h hs.1)

resolve_ranked-IsClear :
    (minimum ambiguity_gap : ℤ) (xs : List Referent) (ref : String)
    → Descending xs
    → resolve_ranked xs minimum ambiguity_gap ≡ some ref
    → (x : Referent) × (x.object_ref ≡ ref) × IsClear minimum ambiguity_gap xs x
resolve_ranked-IsClear minimum ambiguity_gap [] ref d h = cc
resolve_ranked-IsClear minimum ambiguity_gap (x ∷ []) ref d h =
    elim (Bool-cases (ltb_ℤ x.score minimum)) [
      | inl poor ↦ ground (arith, poor, h)
      | inr good ↦ (
        x,
        ground (arith, good, h),
        record { among = inl refl; good = good; apart = (λ other. absurd (other refl), tt) },
      )
    ]
resolve_ranked-IsClear minimum ambiguity_gap (x ∷ y ∷ ys) ref d h =
    elim (Bool-cases (ltb_ℤ x.score minimum)) [
      | inl poor ↦ absurd (ground (arith, poor, h))
      | inr good ↦ elim (Bool-cases (ltb_ℤ (sub_ℤ x.score y.score) ambiguity_gap)) [
        | inl close ↦ absurd (ground (arith, good, close, h))
        | inr clear ↦ (
          x,
          ground (arith, good, clear, h),
          record {
            among = inl refl;
            good = good;
            apart = (
              λ other. absurd (other refl),
              (λ _. clear, behind x y ambiguity_gap ys clear d.1.0),
            );
          },
        )
      ]
    ]

resolve-IsClear :
    (minimum ambiguity_gap : ℤ) (items : ReferentStack) (ref : String)
    → resolve minimum ambiguity_gap items ≡ some ref
    → (x : Referent) × (x.object_ref ≡ ref) × IsClear minimum ambiguity_gap items x
unfolding resolve
resolve-IsClear minimum ambiguity_gap items ref h =
    let (x, named, c) =
      resolve_ranked-IsClear minimum ambiguity_gap (ranked items) ref (ranked-Descending items) h in
    (
      x,
      named,
      record {
        among = ranked-Among x items c.among;
        good = c.good;
        apart = All-ranked _ items c.apart;
      },
    )

not_behind :
    (a b gap : ℤ) → ltb_ℤ (pos 0) gap ≡ true → ltb_ℤ (sub_ℤ a b) gap ≡ false → ltb_ℤ b a ≡ true
not_behind a b gap positive h = ground (arith, positive, h, sub_ℤ_lem a b)

resolve_ranked-lone :
    (minimum ambiguity_gap : ℤ) (first : Referent) (rest : List Referent)
    → ltb_ℤ first.score minimum ≡ false
    → IsDistinct (first ∷ rest)
    → All
        (λ y.
          y.object_ref ≢ first.object_ref → ltb_ℤ (sub_ℤ first.score y.score) ambiguity_gap ≡ false)
        rest
    → resolve_ranked (first ∷ rest) minimum ambiguity_gap ≡ some first.object_ref
resolve_ranked-lone minimum ambiguity_gap first [] good d h = rw good refl
resolve_ranked-lone minimum ambiguity_gap first (second ∷ rest) good d h =
    let clear : ltb_ℤ (sub_ℤ first.score second.score) ambiguity_gap ≡ false =
      h.0 (λ e. ground (arith, d.0, (eq_iff second.object_ref first.object_ref).1 e)) in
    rw (good, clear) refl

resolve_ranked-clear :
    (minimum ambiguity_gap : ℤ) (xs : List Referent) (x : Referent)
    → ltb_ℤ (pos 0) ambiguity_gap ≡ true
    → Descending xs
    → IsDistinct xs
    → IsClear minimum ambiguity_gap xs x
    → resolve_ranked xs minimum ambiguity_gap ≡ some x.object_ref
resolve_ranked-clear minimum ambiguity_gap [] x positive s d c = elim c.among [ ]
resolve_ranked-clear minimum ambiguity_gap (first ∷ rest) x positive s d c = elim c.among [
  | inl e ↦
      subst (λ o. resolve_ranked (first ∷ rest) minimum ambiguity_gap ≡ some o)
        (ap (λ (z : Referent). z.object_ref) (sym e))
        (resolve_ranked-lone minimum ambiguity_gap first rest
          (ap (λ (z : Referent). ltb_ℤ z.score minimum) (sym e) ∙ c.good) d
          (subst
            (λ z.
              All
                (λ y.
                  y.object_ref ≢ z.object_ref → ltb_ℤ (sub_ℤ z.score y.score) ambiguity_gap ≡ false)
                rest)
            e c.apart.1))
  | inr later ↦
      let ahead = Below-Among first x rest s.0 later in
      let other = unmentioned first.object_ref x rest d.0 later in
      absurd (
        ground
          (arith, ahead, not_behind x.score first.score ambiguity_gap positive (c.apart.0 other)))
]

-- On referents none of which stands twice, with a gap above 0, an object is taken for the one meant exactly
-- if one of the items is of it, the score of that item is the minimum at least, and the scores of the items
-- of all other objects are behind it by the gap at least.
pub resolve-IsClear_iff :
    (minimum ambiguity_gap : ℤ) (items : ReferentStack) (ref : String)
    → ltb_ℤ (pos 0) ambiguity_gap ≡ true
    → IsStack items
    → (resolve minimum ambiguity_gap items ≡ some ref)
      ↔ ((x : Referent) × (x.object_ref ≡ ref) × IsClear minimum ambiguity_gap items x)
unfolding resolve
resolve-IsClear_iff minimum ambiguity_gap items ref positive stack = (
  resolve-IsClear minimum ambiguity_gap items ref,
  λ (x, named, c).
      resolve_ranked-clear minimum ambiguity_gap (ranked items) x positive (ranked-Descending items)
        (ranked-IsDistinct items stack.distinct)
        (record {
          among = Among-ranked x items c.among;
          good = c.good;
          apart = All-of_ranked _ items c.apart;
        })
      ∙ ap some named,
)

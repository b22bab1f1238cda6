-- ===== src/Core/Decision/Confirmed.antt =====
-- When a decision counts as established against confirmed policy revisions.
use protobuf_interceptors.Base.{
  ◌≡◌, ◌↔◌, ◌⊎◌, inl, inr, refl, Bool, true, false, none, some, List, [], ◌∷◌, arith, All,
  Option-cases,
}
use protobuf_interceptors.Text.Bytes.{Bytes}
use protobuf_interceptors.Core.Decision.{
  RuleGroup, RuleOutcome, Decision, confirmed_revision, confirm_group, confirm_groups,
  revision_confirmed,
}

-- A group that passed, by a rule that carries a confirmed revision if the group grants.
abbrev pub Sound : RuleGroup → Type 0
Sound g =
    (g.passed ≡ true)
    × ((o : RuleOutcome) × (g.satisfied_by ≡ some o)
        × ((g.restricts ≡ true) ⊎ ((rev : Bytes) × (confirmed_revision o.evaluation ≡ some rev))))

-- Some group grants, that is, does not only restrict.
abbrev pub Grants : List RuleGroup → Type 0
Grants [] = ⊥
Grants (g ∷ gs) = (g.restricts ≡ false) ⊎ Grants gs

confirm_group-Sound :
    (granted granted' : Bool) (g : RuleGroup)
    → confirm_group granted g ≡ some granted'
    → Sound g
      × (((g.restricts ≡ true) × (granted' ≡ granted))
          ⊎ ((g.restricts ≡ false) × (granted' ≡ true)))
unfolding confirm_group
confirm_group-Sound granted granted' g h = elim (Option-cases g.satisfied_by) [
  | inl nothing ↦ ground arith
  | inr (o, by) ↦ elim (Option-cases (confirmed_revision o.evaluation)) [
    | inl unconfirmed ↦ ((ground arith, (o, by, inl (ground arith))), ground arith)
    | inr (rev, confirmed) ↦ ((ground arith, (o, by, inr (rev, confirmed))), ground arith)
  ]
]

confirm_group_complete :
    (granted : Bool) (g : RuleGroup)
    → Sound g
    → ((g.restricts ≡ true) × (confirm_group granted g ≡ some granted))
      ⊎ ((g.restricts ≡ false) × (confirm_group granted g ≡ some true))
unfolding confirm_group
confirm_group_complete granted g (passed, (o, by, why)) = ground arith

confirm_groups-Sound :
    (granted : Bool) (gs : List RuleGroup)
    → confirm_groups granted gs ≡ true
    → All Sound gs × ((granted ≡ true) ⊎ Grants gs)
unfolding confirm_groups
confirm_groups-Sound granted [] h = (tt, inl h)
confirm_groups-Sound granted (g ∷ gs) h = elim (Option-cases (confirm_group granted g)) [
  | inl stops ↦ ground arith
  | inr (granted', goes_on) ↦
      let (here, how) = confirm_group-Sound granted granted' g goes_on in
      let (later, why) = confirm_groups-Sound granted' gs (ground arith) in
      ((here, later), ground arith)
]

confirm_groups_complete :
    (granted : Bool) (gs : List RuleGroup)
    → All Sound gs
    → (granted ≡ true) ⊎ Grants gs
    → confirm_groups granted gs ≡ true
unfolding confirm_groups
confirm_groups_complete granted [] h (inl e) = e
confirm_groups_complete granted [] h (inr e) = absurd e
confirm_groups_complete granted (g ∷ gs) h why = elim (confirm_group_complete granted g h.0) [
  | inl (restricts, e) ↦
      rw (e, confirm_groups) (confirm_groups_complete granted gs h.1 (ground arith))
  | inr (grants, e) ↦ rw (e, confirm_groups) (confirm_groups_complete true gs h.1 (inl refl))
]

-- A decision is confirmed exactly when every group passed by a rule that satisfied it, every
-- granting group by a rule with a confirmed revision, and at least one group grants; an absent
-- decision never is.
pub revision_confirmed_iff :
    (d : Decision)
    → (revision_confirmed none ≡ false)
      × ((revision_confirmed (some d) ≡ true) ↔ (All Sound d.groups × Grants d.groups))
unfolding revision_confirmed
revision_confirmed_iff d = (
  refl,
  (
    λ h. let (all_sound, why) = confirm_groups-Sound false d.groups h in (all_sound, ground arith),
    λ h. confirm_groups_complete false d.groups h.0 (inr h.1),
  ),
)

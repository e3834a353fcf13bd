-- ===== src/View/Filters/Chains.antt =====
-- What a chain of filters does, for any filters.
use vidmerce.Prelude.{
  ◌≡◌, ap, refl, true, false, List, [], ◌∷◌, ◌++◌, text, if◌then◌else◌, Bool-cases, inl, inr,
}
use vidmerce.View.{Input}
use vidmerce.View.Filters.{Filter, reject, apply}

module _ {ℓ} {S : Type ℓ} where
  -- A chain in two parts does what the first part does, followed, if that lets the event pass, by
  -- the second.
  pub apply-append :
      (fs gs : List (Filter S)) (i : Input) (s : S)
      → apply (fs ++ gs) i s ≡ (let r = apply fs i s in if r.0.allowed then apply gs i r.1 else r)
  unfolding apply
  apply-append [] gs i s = refl
  apply-append (f ∷ fs) gs i s = elim (Bool-cases (f.allow i s).0.allowed) [
    | inl on ↦ rw on (apply-append fs gs i (f.allow i s).1)
    | inr off ↦ rw off refl
  ]

  -- A rejection is that of one filter, after all before it let the event pass; none behind it has run.
  pub apply_rejected :
      (fs : List (Filter S)) (i : Input) (s : S)
      → (apply fs i s).0.allowed ≡ false
      → (before after : List (Filter S)) × (f : Filter S) × (fs ≡ before ++ (f ∷ after))
        × ((apply before i s).0.allowed ≡ true)
        × ((f.allow i (apply before i s).1).0.allowed ≡ false)
        × (apply fs i s ≡ (
          reject (f.name ++ (text ":" ++ (f.allow i (apply before i s).1).0.reason)),
          (f.allow i (apply before i s).1).1,
        ))
  unfolding apply
  apply_rejected [] i s h = absurd (cc)
  apply_rejected (f ∷ fs) i s h = elim (Bool-cases (f.allow i s).0.allowed) [
    | inr off ↦ ([], fs, f, refl, refl, off, rw off refl)
    | inl on ↦
        let (before, after, g, e, p, q, r) = apply_rejected fs i (f.allow i s).1 (rw on at h) in
        (f ∷ before, after, g, ap (◌∷◌ f) e, rw on p, rw on q, rw on r)
  ]

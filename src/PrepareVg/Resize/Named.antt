-- ===== src/PrepareVg/Resize/Named.antt =====
-- The volumes of a group that no disk of the specification names.
use topolvm_operator.Base.{
  ◌∙◌, sym, ◌≡◌, ◌↔◌, Has-select, select-Has, refl, Bool, true, false, false≢true, not, List, [],
  ◌∷◌, arith, Has, ◌⊎◌, inl, inr, any, Bool-cases,
}
use topolvm_operator.Base.Text.{Text, same, same_iff}
use topolvm_operator.Api.{Disk, DeviceClass}
use topolvm_operator.PrepareVg.Resize.{to_delete}

-- Some disk of the class has the name in the specification.
abbrev pub IsNamed : List Disk → Text → Type 0
IsNamed [] pv = ⊥
IsNamed (d ∷ ds) pv = (d.name ≡ pv) ⊎ IsNamed ds pv

any-IsNamed :
    (ds : List Disk) (pv : Text) → any (λ (d : Disk). same pv d.name) ds ≡ true → IsNamed ds pv
any-IsNamed [] pv h = cc
any-IsNamed (d ∷ ds) pv h = elim (Bool-cases (same pv d.name)) [
  | inl e ↦ inl (sym ((same_iff pv d.name).0 e))
  | inr e ↦ inr (any-IsNamed ds pv (ground arith))
]

-- the test of the loop over the volumes
abbrev pub unnamed : List Disk → Text → Bool
unnamed ds pv = not (any (λ (d : Disk). same pv d.name) ds)

IsNamed-any :
    (ds : List Disk) (pv : Text) → IsNamed ds pv → any (λ (d : Disk). same pv d.name) ds ≡ true
IsNamed-any [] pv h = absurd h
IsNamed-any (d ∷ ds) pv (inl e) = ground (arith, same_iff pv d.name, e)
IsNamed-any (d ∷ ds) pv (inr r) = ground (arith, IsNamed-any ds pv r)

pub unnamed-false : (ds : List Disk) (pv : Text) → IsNamed ds pv → unnamed ds pv ≡ false
unnamed-false ds pv h = rw (IsNamed-any ds pv h) refl

pub unnamed-true : (ds : List Disk) (pv : Text) → ¬ IsNamed ds pv → unnamed ds pv ≡ true
unnamed-true ds pv h = elim (Bool-cases (any (λ (d : Disk). same pv d.name) ds)) [
  | inl q ↦ absurd (h (any-IsNamed ds pv q))
  | inr q ↦ rw q refl
]

not-false : (b : Bool) → not b ≡ true → b ≡ false
not-false true h = cc
not-false false h = refl

-- The volumes that go are those of the group that no disk of the specification names.
pub to_delete-exact :
    (class : DeviceClass) (pvs : List Text) (pv : Text)
    → Has pv (to_delete class pvs) ↔ (Has pv pvs × ¬ IsNamed class.device pv)
unfolding to_delete
to_delete-exact class pvs pv = (
  λ h.
      let (has, q) = Has-select (unnamed class.device) pvs pv h in
      (has, λ n. false≢true (sym (not-false _ q) ∙ IsNamed-any class.device pv n)),
  λ (has, free).
      select-Has (unnamed class.device) pvs pv has
        (elim (Bool-cases (any (λ (d : Disk). same pv d.name) class.device)) [
          | inl e ↦ absurd (free (any-IsNamed class.device pv e))
          | inr e ↦ rw e
        ]),
)

-- ===== src/Members/Owners.antt =====
-- Counting the owners and the members of a workspace when one row is deleted or changes its role.
use kurultay.Base.{
  ℕ, ◌+◌, ◌≡◌, refl, sym, ap, subst, ◌≢◌, inl, inr, Bool, not, some, List, [], ◌∷◌, arith, length,
  keep_if, find_first, find_first-All, ◌==◌, ==_refl, if◌then◌else◌, Bool-cases,
}
use kurultay.Base.Perms.{IsAbsent, IsDistinct}
use kurultay.Ordering.Tables.{update_where}
use kurultay.Members.{MemberRole, Member, is_owner_of}

abbrev pub owners : ℕ → List Member → ℕ
owners w ms = length (keep_if (is_owner_of w) ms)

abbrev pub without_member : ℕ → List Member → List Member
without_member i = keep_if (λ m. not (m.id == i))

abbrev pub with_role : ℕ → MemberRole → List Member → List Member
with_role i role = update_where (λ m. m.id == i) (λ m. record m { role = role })

abbrev pub members_of : ℕ → List Member → List Member
members_of w = keep_if (λ m. m.workspace_id == w)

abbrev pub one_if : Bool → ℕ
one_if b = if b then 1 else 0

module _ (w : ℕ) where
  delete_absent :
      (i : ℕ) (ms : List Member) → IsAbsent (λ (m : Member). m.id) i ms → without_member i ms ≡ ms
  delete_absent i [] h = refl
  delete_absent i (m ∷ ms) h = ground (arith, delete_absent i ms h.1)

  update_absent :
      (i : ℕ) (role : MemberRole) (ms : List Member)
      → IsAbsent (λ (m : Member). m.id) i ms
      → with_role i role ms ≡ ms
  update_absent i role [] h = refl
  update_absent i role (m ∷ ms) h = ground (arith, update_absent i role ms h.1)

  without_member_head :
      (x : Member) (xs : List Member)
      → IsAbsent (λ (m : Member). m.id) x.id xs
      → without_member x.id (x ∷ xs) ≡ xs
  without_member_head x xs far = rw (==_refl x.id) (delete_absent x.id xs far)

  with_role_head :
      (x : Member) (role : MemberRole) (xs : List Member)
      → IsAbsent (λ (m : Member). m.id) x.id xs
      → with_role x.id role (x ∷ xs) ≡ record x { role = role } ∷ xs
  with_role_head x role xs far =
      rw (==_refl x.id) (ap (◌∷◌ (record x { role = role })) (update_absent x.id role xs far))

  -- Deleting a row takes away one owner if the row is one.
  pub owners-without :
      (p : Member → Bool) (ms : List Member) {t : Member}
      → IsDistinct (λ (m : Member). m.id) ms
      → find_first p ms ≡ some t
      → owners w ms ≡ owners w (without_member t.id ms) + one_if (is_owner_of w t)
  owners-without p [] d e = cc
  owners-without p (x ∷ xs) {t} d e = elim (Bool-cases (p x)) [
    | inl hit ↦
        let same : x ≡ t = ground arith in
        subst
          (λ z.
            owners w (x ∷ xs) ≡ owners w (without_member z.id (x ∷ xs)) + one_if (is_owner_of w z))
          same (rw (without_member_head x xs d.0) (ground arith))
    | inr miss ↦
        let found : find_first p xs ≡ some t = ground arith in
        let far : t.id ≢ x.id = find_first-All (λ y. y.id ≢ x.id) p xs found d.0 in
        ground (arith, owners-without p xs d.1 found)
  ]

  pub owners-with_role :
      (p : Member → Bool) (role : MemberRole) (ms : List Member) {t : Member}
      → IsDistinct (λ (m : Member). m.id) ms
      → find_first p ms ≡ some t
      → owners w (with_role t.id role ms) + one_if (is_owner_of w t)
        ≡ owners w ms + one_if (is_owner_of w (record t { role = role }))
  owners-with_role p role [] d e = cc
  owners-with_role p role (x ∷ xs) {t} d e = elim (Bool-cases (p x)) [
    | inl hit ↦
        let same : x ≡ t = ground arith in
        subst
          (λ z.
            owners w (with_role z.id role (x ∷ xs)) + one_if (is_owner_of w z)
            ≡ owners w (x ∷ xs) + one_if (is_owner_of w (record z { role = role })))
          same
          (subst
            (λ zs.
              owners w zs + one_if (is_owner_of w x)
              ≡ owners w (x ∷ xs) + one_if (is_owner_of w (record x { role = role })))
            (sym (with_role_head x role xs d.0)) (ground arith))
    | inr miss ↦
        let found : find_first p xs ≡ some t = ground arith in
        let far : t.id ≢ x.id = find_first-All (λ y. y.id ≢ x.id) p xs found d.0 in
        ground (arith, owners-with_role p role xs d.1 found)
  ]

  pub members_of-without :
      (p : Member → Bool) (ms : List Member) {t : Member}
      → IsDistinct (λ (m : Member). m.id) ms
      → find_first p ms ≡ some t
      → t.workspace_id ≢ w
      → members_of w (without_member t.id ms) ≡ members_of w ms
  members_of-without p [] d e other = cc
  members_of-without p (x ∷ xs) {t} d e other = elim (Bool-cases (p x)) [
    | inl hit ↦
        let same : x ≡ t = ground arith in
        let far : x.workspace_id ≢ w = rw same other in
        subst (λ z. members_of w (without_member z.id (x ∷ xs)) ≡ members_of w (x ∷ xs)) same
          (rw (without_member_head x xs d.0) (ground arith))
    | inr miss ↦
        let found : find_first p xs ≡ some t = ground arith in
        let far : t.id ≢ x.id = find_first-All (λ y. y.id ≢ x.id) p xs found d.0 in
        ground (arith, members_of-without p xs d.1 found other)
  ]

  pub members_of-with_role :
      (p : Member → Bool) (role : MemberRole) (ms : List Member) {t : Member}
      → IsDistinct (λ (m : Member). m.id) ms
      → find_first p ms ≡ some t
      → t.workspace_id ≢ w
      → members_of w (with_role t.id role ms) ≡ members_of w ms
  members_of-with_role p role [] d e other = cc
  members_of-with_role p role (x ∷ xs) {t} d e other = elim (Bool-cases (p x)) [
    | inl hit ↦
        let same : x ≡ t = ground arith in
        let far : x.workspace_id ≢ w = rw same other in
        subst (λ z. members_of w (with_role z.id role (x ∷ xs)) ≡ members_of w (x ∷ xs)) same
          (subst (λ zs. members_of w zs ≡ members_of w (x ∷ xs))
            (sym (with_role_head x role xs d.0)) (ground arith))
    | inr miss ↦
        let found : find_first p xs ≡ some t = ground arith in
        let far : t.id ≢ x.id = find_first-All (λ y. y.id ≢ x.id) p xs found d.0 in
        ground (arith, members_of-with_role p role xs d.1 found other)
  ]

IsAbsent-without :
    (a i : ℕ) (ms : List Member)
    → IsAbsent (λ (m : Member). m.id) a ms
    → IsAbsent (λ (m : Member). m.id) a (without_member i ms)
IsAbsent-without a i [] h = tt
IsAbsent-without a i (m ∷ ms) h = ground (arith, IsAbsent-without a i ms h.1)

pub IsDistinct-without :
    (i : ℕ) (ms : List Member)
    → IsDistinct (λ (m : Member). m.id) ms
    → IsDistinct (λ (m : Member). m.id) (without_member i ms)
IsDistinct-without i [] d = tt
IsDistinct-without i (m ∷ ms) d =
    ground (arith, IsDistinct-without i ms d.1, IsAbsent-without m.id i ms d.0)

IsAbsent-with_role :
    (a i : ℕ) (role : MemberRole) (ms : List Member)
    → IsAbsent (λ (m : Member). m.id) a ms
    → IsAbsent (λ (m : Member). m.id) a (with_role i role ms)
IsAbsent-with_role a i role [] h = tt
IsAbsent-with_role a i role (m ∷ ms) h = ground (arith, IsAbsent-with_role a i role ms h.1)

pub IsDistinct-with_role :
    (i : ℕ) (role : MemberRole) (ms : List Member)
    → IsDistinct (λ (m : Member). m.id) ms
    → IsDistinct (λ (m : Member). m.id) (with_role i role ms)
IsDistinct-with_role i role [] d = tt
IsDistinct-with_role i role (m ∷ ms) d =
    ground (arith, IsDistinct-with_role i role ms d.1, IsAbsent-with_role m.id i role ms d.0)

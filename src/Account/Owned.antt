-- ===== src/Account/Owned.antt =====
-- Workspaces keep an owner who can act: the invariant, and what the loop over the solely owned
-- workspaces makes of it.
use kurultay.Base.{
  ℕ, ◌≡◌, subst, ◌⊎◌, inl, inr, Bool, true, false, not, ◌&&◌, some, List, [], ◌∷◌, arith, All,
  any_of, keep_if, find_first, ◌==◌, Bool-cases,
}
use kurultay.Ordering.Tables.{update_where}
use kurultay.Members.{owner}
use kurultay.Integrity.Keys.{All-keep_if}
use kurultay.Account.{User, Workspace, Membership, Accounts, is_live, is_membership, is_owner_in}

-- `@@unique([workspaceId, userId])`
abbrev pub IsUnique : List Membership → Type 0
IsUnique [] = Unit {0}
IsUnique (m ∷ ms) = All (λ x. is_membership m.workspace_id m.user_id x ≡ false) ms × IsUnique ms

-- Every workspace has an owner, and every member is an account that has not been emptied.
pub record IsOwned (s : Accounts) : Type 0 where
  pub owned : All (λ w. any_of (is_owner_in w.id) s.members ≡ true) s.workspaces
  pub live : All (λ m. is_live s.users m.user_id ≡ true) s.members
  pub unique : IsUnique s.members

abbrev pub other_owner : (departing workspace_id : ℕ) → Membership → Bool
other_owner i w m = is_owner_in w m && not (m.user_id == i)

-- A workspace has another owner, or it is still to be decided on.
abbrev pub IsSettled : ℕ → List Membership → List Membership → Workspace → Type 0
IsSettled i rest ms w =
    (any_of (other_owner i w.id) ms ≡ true) ⊎ (any_of (λ m. m.workspace_id == w.id) rest ≡ true)

-- What holds in the loop, with the memberships that are left to decide.
pub record IsSettling (i : ℕ) (us : List User) (rest : List Membership) (s : Accounts)
    : Type 0 where
  pub settled : All (IsSettled i rest s.members) s.workspaces
  pub live : All (λ m. is_live us m.user_id ≡ true) s.members
  pub unique : IsUnique s.members
  pub users_same : s.users ≡ us

abbrev pub promoted : (workspace_id user_id : ℕ) → List Membership → List Membership
promoted w u = update_where (is_membership w u) (λ m. record m { role = owner })

module _ (w u i : ℕ) where
  promoted-other_owner :
      (v : ℕ) (ms : List Membership)
      → any_of (other_owner i v) ms ≡ true
      → any_of (other_owner i v) (promoted w u ms) ≡ true
  promoted-other_owner v [] e = e
  promoted-other_owner v (m ∷ ms) e = ground (arith, promoted-other_owner v ms)

  pub promoted-owner :
      (ms : List Membership) {m : Membership}
      → find_first (is_membership w u) ms ≡ some m
      → (u == i) ≡ false
      → any_of (other_owner i w) (promoted w u ms) ≡ true
  promoted-owner [] e other = cc
  promoted-owner (x ∷ xs) {m} e other = ground (arith, promoted-owner xs {m = m})

  promoted-absent :
      (v t : ℕ) (ms : List Membership)
      → All (λ x. is_membership v t x ≡ false) ms
      → All (λ x. is_membership v t x ≡ false) (promoted w u ms)
  promoted-absent v t [] h = tt
  promoted-absent v t (m ∷ ms) h = ground (arith, promoted-absent v t ms h.1)

  pub promoted-IsUnique : (ms : List Membership) → IsUnique ms → IsUnique (promoted w u ms)
  promoted-IsUnique [] h = tt
  promoted-IsUnique (m ∷ ms) h = elim (Bool-cases (is_membership w u m)) [
    | inl hit ↦ rw hit (promoted-absent m.workspace_id m.user_id ms h.0, promoted-IsUnique ms h.1)
    | inr miss ↦ rw miss (promoted-absent m.workspace_id m.user_id ms h.0, promoted-IsUnique ms h.1)
  ]

  pub promoted-IsSettled :
      (m : Membership) (rest ms : List Membership) (ws : List Workspace)
      → m.workspace_id ≡ w
      → any_of (other_owner i w) (promoted w u ms) ≡ true
      → All (IsSettled i (m ∷ rest) ms) ws
      → All (IsSettled i rest (promoted w u ms)) ws
  promoted-IsSettled m rest ms [] e owned h = tt
  promoted-IsSettled m rest ms (x ∷ xs) e owned h = (
    elim h.0 [
      | inl already ↦ inl (promoted-other_owner x.id ms already)
      | inr open_still ↦ elim (Bool-cases (m.workspace_id == x.id)) [
        | inl here ↦
            let same : w ≡ x.id = ground arith in
            inl (subst (λ v. any_of (other_owner i v) (promoted w u ms) ≡ true) same owned)
        | inr elsewhere ↦ inr (ground arith)
      ]
    ],
    promoted-IsSettled m rest ms xs e owned h.1,
  )

pub IsUnique-keep_if :
    (p : Membership → Bool) (ms : List Membership) → IsUnique ms → IsUnique (keep_if p ms)
IsUnique-keep_if p [] h = tt
IsUnique-keep_if p (m ∷ ms) h = elim (Bool-cases (p m)) [
  | inl kept ↦ rw kept (
    All-keep_if (λ x. is_membership m.workspace_id m.user_id x ≡ false) p ms h.0,
    IsUnique-keep_if p ms h.1,
  )
  | inr gone ↦ rw gone (IsUnique-keep_if p ms h.1)
]

abbrev outside : ℕ → List Membership → List Membership
outside w = keep_if (λ m. not (m.workspace_id == w))

outside-other_owner :
    (w i v : ℕ) (ms : List Membership)
    → (v == w) ≡ false
    → any_of (other_owner i v) ms ≡ true
    → any_of (other_owner i v) (outside w ms) ≡ true
outside-other_owner w i v [] far e = e
outside-other_owner w i v (m ∷ ms) far e = ground (arith, outside-other_owner w i v ms)

pub outside-IsSettled :
    (w i : ℕ) (m : Membership) (rest ms : List Membership) (ws : List Workspace)
    → m.workspace_id ≡ w
    → All (IsSettled i (m ∷ rest) ms) ws
    → All (IsSettled i rest (outside w ms)) (keep_if (λ x. not (x.id == w)) ws)
outside-IsSettled w i m rest ms [] e h = tt
outside-IsSettled w i m rest ms (x ∷ xs) e h = elim (Bool-cases (x.id == w)) [
  | inl gone ↦ rw gone (outside-IsSettled w i m rest ms xs e h.1)
  | inr far ↦ rw far (
    elim h.0 [
      | inl already ↦ inl (outside-other_owner w i x.id ms far already)
      | inr open_still ↦ inr (ground arith)
    ],
    outside-IsSettled w i m rest ms xs e h.1,
  )
]

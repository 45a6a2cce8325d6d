-- ===== src/Account/Ownership.antt =====
-- No erasure leaves a workspace without an owner who can act.
use kurultay.Base.{
  ℕ, ◌≤◌, ◌≡◌, refl, sym, ap, subst, ◌∙◌, inl, inr, Bool, true, false, not, ◌&&◌, ◌||◌, List, [],
  ◌∷◌, arith, All, any_of, keep_if, length, ◌==◌, Bool-cases, ok, >>=-eq-ok, or_throw, ok-injective,
}
use kurultay.Ordering.Tables.{update_where}
use kurultay.Mentions.{Text}
use kurultay.Account.{
  User, Workspace, Membership, DeletionInitiator, Accounts, is_live, is_membership, is_owner_in,
  anonymised_user_fields,
}
use kurultay.Account.Memberships.{
  Disposition, insert_by_workspace, by_workspace, is_sole_owner, partition_memberships,
}
use kurultay.Account.Deletion.{
  Progress, Erasure, redact_comments, erased, erase, delete_account, undisturbed,
}
use kurultay.Account.Owned.{IsOwned, IsUnique, other_owner, IsSettled, IsSettling, IsUnique-keep_if}
use kurultay.Account.Runs.{live_id, delete_account-runs}
use kurultay.Account.Settled.{settle-IsSettling}

module _ {T : Type 0} where
  any_of-weaken :
      (p q : T → Bool) (xs : List T)
      → ((x : T) → p x ≡ true → q x ≡ true)
      → any_of p xs ≡ true
      → any_of q xs ≡ true
  any_of-weaken p q [] h e = e
  any_of-weaken p q (x ∷ xs) h e = ground (arith, h x, any_of-weaken p q xs h)

  any_of-keep_if :
      (p q : T → Bool) (xs : List T) → any_of q (keep_if p xs) ≡ any_of (λ x. p x && q x) xs
  any_of-keep_if p q [] = refl
  any_of-keep_if p q (x ∷ xs) = ground (arith, any_of-keep_if p q xs)

any_of-by_workspace :
    (q : Membership → Bool) (ms : List Membership) → any_of q (by_workspace ms) ≡ any_of q ms
any_of-by_workspace q [] = refl
any_of-by_workspace q (m ∷ ms) =
    inserted m (by_workspace ms) ∙ ap (λ b. q m || b) (any_of-by_workspace q ms)
  where
    inserted :
        (m : Membership) (xs : List Membership)
        → any_of q (insert_by_workspace m xs) ≡ (q m || any_of q xs)
    inserted m [] = refl
    inserted m (x ∷ xs) = ground (arith, inserted m xs)

module _ (i w : ℕ) where
  no_owner :
      (ms : List Membership)
      → any_of (other_owner i w) ms ≡ false
      → All (λ x. is_membership w i x ≡ false) ms
      → length (keep_if (is_owner_in w) ms) ≡ 0
  no_owner [] e h = refl
  no_owner (m ∷ ms) e h = ground (arith, no_owner ms)

  one_owner :
      (ms : List Membership)
      → any_of (other_owner i w) ms ≡ false
      → IsUnique ms
      → length (keep_if (is_owner_in w) ms) ≤ 1
  one_owner [] e h = omega arith
  one_owner (m ∷ ms) e h = elim (Bool-cases (is_owner_in w m)) [
    | inl owns ↦
        let same_w : m.workspace_id ≡ w = ground arith in
        let same_i : m.user_id ≡ i = ground arith in
        let none_else = no_owner ms (ground arith) (rw (same_w, same_i) at (h.0)) in
        rw owns (omega (arith, none_else))
    | inr other ↦ rw other (one_owner ms (ground arith) h.1)
  ]

  owner_is_departing :
      (ms : List Membership)
      → any_of (is_owner_in w) ms ≡ true
      → any_of (other_owner i w) ms ≡ false
      → any_of (λ m. is_owner_in w m && m.user_id == i) ms ≡ true
  owner_is_departing [] e k = e
  owner_is_departing (m ∷ ms) e k = ground (arith, owner_is_departing ms)

-- A workspace that only the departing user owns is among those that need a decision.
is_partitioned :
    (ms : List Membership) (i w : ℕ)
    → IsUnique ms
    → any_of (is_owner_in w) ms ≡ true
    → any_of (other_owner i w) ms ≡ false
    → any_of (λ m. m.workspace_id == w) (partition_memberships ms i).0 ≡ true
unfolding partition_memberships is_sole_owner
is_partitioned ms i w unique e k =
    any_of-keep_if (is_sole_owner ms) (λ m. m.workspace_id == w)
      (by_workspace (keep_if (λ m. m.user_id == i) ms))
    ∙ any_of-by_workspace _ (keep_if (λ m. m.user_id == i) ms)
    ∙ any_of-keep_if (λ m. m.user_id == i) _ ms
    ∙ any_of-weaken _ _ ms sole (owner_is_departing i w ms e k)
  where
    sole :
        (m : Membership)
        → (is_owner_in w m && m.user_id == i) ≡ true
        → (m.user_id == i && (is_sole_owner ms m && m.workspace_id == w)) ≡ true
    sole m h =
        let same : m.workspace_id ≡ w = ground arith in
        let few = one_owner i w ms k unique in rw same (ground (arith, few))

module _ (i : ℕ) where
  partitioned-IsSettled :
      (ms : List Membership) (ws : List Workspace)
      → IsUnique ms
      → All (λ w. any_of (is_owner_in w.id) ms ≡ true) ws
      → All (IsSettled i (partition_memberships ms i).0 ms) ws
  partitioned-IsSettled ms [] unique h = tt
  partitioned-IsSettled ms (w ∷ ws) unique h = (
    elim (Bool-cases (any_of (other_owner i w.id) ms)) [
      | inl other ↦ inl other
      | inr alone ↦ inr (is_partitioned ms i w.id unique h.0 alone)
    ],
    partitioned-IsSettled ms ws unique h.1,
  )

  abbrev pub without_user : List Membership → List Membership
  without_user = keep_if (λ m. not (m.user_id == i))

  owner_stays :
      (w : ℕ) (ms : List Membership)
      → any_of (other_owner i w) ms ≡ true
      → any_of (is_owner_in w) (without_user ms) ≡ true
  owner_stays w [] e = e
  owner_stays w (m ∷ ms) e = ground (arith, owner_stays w ms)

  owners_stay :
      (ms : List Membership) (ws : List Workspace)
      → All (IsSettled i [] ms) ws
      → All (λ w. any_of (is_owner_in w.id) (without_user ms) ≡ true) ws
  owners_stay ms [] h = tt
  owners_stay ms (w ∷ ws) h = (
    elim h.0 [ inl settled ↦ owner_stays w.id ms settled | inr impossible ↦ cc ],
    owners_stay ms ws h.1,
  )

  module _ (f : User → User) (same_id : (u : User) → (f u).id ≡ u.id) where
    others_live :
        (us : List User) (x : ℕ)
        → (x == i) ≡ false
        → is_live (update_where (λ u. u.id == i) f us) x ≡ is_live us x
    others_live [] x far = refl
    others_live (u ∷ us) x far = ground (arith, same_id u, others_live us x far)

    members_live :
        (us : List User) (ms : List Membership)
        → All (λ m. is_live us m.user_id ≡ true) ms
        → All (λ m. is_live (update_where (λ u. u.id == i) f us) m.user_id ≡ true) (without_user ms)
    members_live us [] h = tt
    members_live us (m ∷ ms) h = elim (Bool-cases (m.user_id == i)) [
      | inl gone ↦ rw gone (members_live us ms h.1)
      | inr kept ↦ rw kept (others_live us m.user_id kept ∙ h.0, members_live us ms h.1)
    ]

own_users :
    {i j : ℕ} {us : List User} {rest : List Membership} {s : Accounts}
    → j ≡ i
    → IsSettling i us rest s
    → IsSettling j s.users rest s
own_users {i} {rest = rest} {s = s} e h =
    subst (λ j. IsSettling j s.users rest s) (sym e)
      (subst (λ us. IsSettling i us rest s) (sym h.users_same) h)

module _ (id_text : ℕ → Text) where
  erase-IsOwned :
      (p : Progress) (user : User) (initiated_by : DeletionInitiator) (now : ℕ)
      (remaining : List Membership) (done : Erasure)
      → erase id_text p user initiated_by now remaining ≡ ok done
      → IsSettling user.id p.tables.users [] p.tables
      → IsOwned done.tables
  unfolding erase erased anonymised_user_fields
  erase-IsOwned p user initiated_by now remaining done e h =
      let (redacted, e0, e1) = >>=-eq-ok (or_throw (redact_comments id_text p.tables user) _) _ e in
      subst (λ d. IsOwned d.tables) (ok-injective e1)
        (record {
          owned = owners_stay user.id p.tables.members p.tables.workspaces h.settled;
          live =
              members_live user.id (λ u. anonymised_user_fields id_text u.id now) (λ u. refl)
                p.tables.users p.tables.members h.live;
          unique = IsUnique-keep_if (λ m. not (m.user_id == user.id)) p.tables.members h.unique;
        })

  module _ (normalise : Text → Text) where
    -- If each workspace has an owner, each member is a live account and no user is twice a member
    -- of a workspace, then this is so behind an erasure too, whichever decisions it carried out,
    -- while nobody else writes: no workspace is left to an account that has been emptied, and none without an owner.
    pub delete_account-IsOwned :
        (s : Accounts) (user_id : ℕ) (confirm_email : Text) (dispositions : List Disposition)
        (initiated_by : DeletionInitiator) (actor_id now : ℕ) (done : Erasure)
        → delete_account id_text normalise undisturbed s user_id confirm_email dispositions
            initiated_by actor_id now
          ≡ ok done
        → IsOwned s
        → IsOwned done.tables
    delete_account-IsOwned s i confirm ds by_whom a now done e h =
        let (user, by_id, settled, live, ran, erased_by) =
          delete_account-runs id_text normalise s i confirm ds by_whom a now done e in
        let start : IsSettling i s.users (partition_memberships s.members i).0 s = record {
          settled = partitioned-IsSettled i s.members s.workspaces h.unique h.owned;
          live = h.live;
          unique = h.unique;
          users_same = refl;
        } in
        erase-IsOwned settled user by_whom now _ done erased_by (
          own_users (live_id s.users i live)
            (settle-IsSettling by_id i a s.users _ _ settled ran start))

-- ===== src/Account/Decisions.antt =====
-- Which dispositions `matchDispositions` takes.
use mathlib.Core.List.{append_assoc, append-nil}
use kurultay.Base.{
  ℕ, ◌≡◌, refl, sym, ap, ◌∙◌, ◌↔◌, inl, inr, Bool, true, false, not, List, [], ◌∷◌, ◌++◌, arith,
  any_of, keep_if, length, ltb, All, ◌==◌, Bool-cases, ok, >>=-eq-ok, throw_if, throw_if-eq-ok,
  ok-injective,
}
use kurultay.Base.Perms.{IsAbsent, IsDistinct}
use kurultay.Account.{Membership}
use kurultay.Account.Memberships.{Disposition, collect_dispositions, match_dispositions}

abbrev workspace_of : Disposition → ℕ
workspace_of d = d.workspace_id

-- The request decides on the workspace.
abbrev pub decides : List Disposition → ℕ → Bool
decides ds workspace_id = any_of (λ d. d.workspace_id == workspace_id) ds

abbrev pub needs : List Membership → ℕ → Bool
needs sole_owned workspace_id = any_of (λ m. m.workspace_id == workspace_id) sole_owned

decides-append :
    (ds es : List Disposition) (w : ℕ)
    → decides ds w ≡ false
    → decides es w ≡ false
    → decides (ds ++ es) w ≡ false
decides-append [] es w h k = k
decides-append (d ∷ ds) es w h k = ground (arith, decides-append ds es w)

decides-append_inv :
    (ds es : List Disposition) (w : ℕ)
    → decides (ds ++ es) w ≡ false
    → (decides ds w ≡ false) × (decides es w ≡ false)
decides-append_inv [] es w h = (refl, h)
decides-append_inv (d ∷ ds) es w h = ground (arith, decides-append_inv ds es w)

-- No disposition of the list is for a workspace that the map has.
abbrev IsFresh : List Disposition → List Disposition → Type 0
IsFresh by_id ds = All (λ e. decides by_id e.workspace_id ≡ false) ds

IsFresh-append :
    (by_id : List Disposition) (d : Disposition) (ds : List Disposition)
    → IsFresh by_id ds
    → IsAbsent workspace_of d.workspace_id ds
    → IsFresh (by_id ++ d ∷ []) ds
IsFresh-append by_id d [] h k = tt
IsFresh-append by_id d (e ∷ es) h k = (
  decides-append by_id (d ∷ []) e.workspace_id h.0 (ground (arith, k.0)),
  IsFresh-append by_id d es h.1 k.1,
)

IsFresh-append_inv :
    (by_id : List Disposition) (d : Disposition) (ds : List Disposition)
    → IsFresh (by_id ++ d ∷ []) ds
    → IsFresh by_id ds × IsAbsent workspace_of d.workspace_id ds
IsFresh-append_inv by_id d [] h = (tt, tt)
IsFresh-append_inv by_id d (e ∷ es) h =
    let (old, new) = decides-append_inv by_id (d ∷ []) e.workspace_id h.0 in
    let rest = IsFresh-append_inv by_id d es h.1 in ((old, rest.0), (ground arith, rest.1))

module _ (required : List Membership) where
  abbrev AreNeeded : List Disposition → Type 0
  AreNeeded = All (λ d. needs required d.workspace_id ≡ true)

  collected :
      (by_id ds : List Disposition) {r : List Disposition}
      → collect_dispositions required by_id ds ≡ ok r
      → (r ≡ by_id ++ ds) × IsFresh by_id ds × IsDistinct workspace_of ds × AreNeeded ds
  unfolding collect_dispositions
  collected by_id [] e = (sym (ok-injective e) ∙ sym (append-nil by_id), tt, tt, tt)
  collected by_id (d ∷ ds) e =
      let (u, e0, e1) = >>=-eq-ok (throw_if (decides by_id d.workspace_id) _) _ e in
      let (v, e2, e3) = >>=-eq-ok (throw_if (not (needs required d.workspace_id)) _) _ e1 in
      let (joined, fresh, apart, needed) = collected (by_id ++ d ∷ []) ds e3 in
      let (old, new) = IsFresh-append_inv by_id d ds fresh in
      (
        joined ∙ append_assoc by_id (d ∷ []) ds,
        (throw_if-eq-ok _ _ e0, old),
        (new, apart),
        (ground (arith, throw_if-eq-ok _ _ e2), needed),
      )

  collects :
      (by_id ds : List Disposition)
      → IsFresh by_id ds
      → IsDistinct workspace_of ds
      → AreNeeded ds
      → collect_dispositions required by_id ds ≡ ok (by_id ++ ds)
  unfolding collect_dispositions
  collects by_id [] fresh apart needed = ap ok (sym (append-nil by_id))
  collects by_id (d ∷ ds) fresh apart needed =
      rw (fresh.0, needed.0)
        (collects (by_id ++ d ∷ []) ds (IsFresh-append by_id d ds fresh.1 apart.0) apart.1 needed.1
          ∙ ap ok (append_assoc by_id (d ∷ []) ds))

abbrev undecided : List Disposition → List Membership → List Membership
undecided ds = keep_if (λ m. not (decides ds m.workspace_id))

each_decided :
    (ds : List Disposition) (ms : List Membership)
    → ltb 0 (length (undecided ds ms)) ≡ false
    → All (λ m. decides ds m.workspace_id ≡ true) ms
each_decided ds [] h = tt
each_decided ds (m ∷ ms) h = elim (Bool-cases (decides ds m.workspace_id)) [
  | inl yes_here ↦ (yes_here, each_decided ds ms (rw yes_here at h))
  | inr no_here ↦ absurd (ground arith)
]

none_undecided :
    (ds : List Disposition) (ms : List Membership)
    → All (λ m. decides ds m.workspace_id ≡ true) ms
    → undecided ds ms ≡ []
none_undecided ds [] h = refl
none_undecided ds (m ∷ ms) h = rw h.0 (none_undecided ds ms h.1)

IsFresh-nil : (ds : List Disposition) → IsFresh [] ds
IsFresh-nil [] = tt
IsFresh-nil (d ∷ ds) = (refl, IsFresh-nil ds)

-- A request is taken exactly when it decides each solely owned workspace, no other one, and none
-- twice; the decisions are then the ones sent, in their order.
pub match_dispositions_iff :
    (sole_owned : List Membership) (ds by_id : List Disposition)
    → (match_dispositions sole_owned ds ≡ ok by_id) ↔ (
        (by_id ≡ ds)
        × IsDistinct (λ d. d.workspace_id) ds
        × All (λ d. needs sole_owned d.workspace_id ≡ true) ds
        × All (λ m. decides ds m.workspace_id ≡ true) sole_owned)
unfolding match_dispositions
match_dispositions_iff sole_owned ds by_id = (
  λ e.
      let (r, e0, e1) = >>=-eq-ok (collect_dispositions sole_owned [] ds) _ e in
      let (same, fresh, apart, needed) = collected sole_owned [] ds e0 in
      let (u, e2, e3) = >>=-eq-ok (throw_if (ltb 0 (length (undecided r sole_owned))) _) _ e1 in
      let every = each_decided r sole_owned (throw_if-eq-ok _ _ e2) in
      (sym (ok-injective e3) ∙ same, apart, needed, rw same at every),
  λ h.
      rw (collects sole_owned [] ds (IsFresh-nil ds) h.1 h.2, none_undecided ds sole_owned h.3)
        (ap ok (sym h.0)),
)

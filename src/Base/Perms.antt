-- ===== src/Base/Perms.antt =====
-- The array methods of the other children and the library's permutations.
use mathlib.Core.Path.{◌≡◌, refl, sym, subst}
use mathlib.Core.Bool.{Bool, true}
use mathlib.Core.Logic.{◌≢◌}
use mathlib.Core.HLevel.{⊥_prop}
use mathlib.Core.Logic.Or
use mathlib.Core.List.{
  List, [], ◌∷◌, map, filter, Mem, Perm, Nodup, mem-cons, mem-cons_self, not-mem-nil,
  mem-cons_of_mem, Nodup-cons, Nodup-nil,
}
use mathlib.Core.List.Perm
use Prim.Native.Nat.{ℕ, zero, suc}
use native.Mathlib.Omega.{arith}
use kurultay.Base.Lists.{keep_if, insert_at, All}

Bool_discrete : Discrete Bool
Bool_discrete = hlevel

pub ≢_prop {ℓ} : {A : Type ℓ} (a b : A) → IsProp (a ≢ b)
≢_prop a b = hlevel

pub Bool_set : IsSet Bool
Bool_set = hlevel

module _ {ℓ} {A : Type ℓ} where
  keep_if-filter :
      (p : A → Bool) (xs : List A) → keep_if p xs ≡ filter (λ x. Bool_discrete (p x) true) xs
  keep_if-filter p [] = refl
  keep_if-filter p (x ∷ xs) = ground (arith, keep_if-filter p xs)

  pub keep_if-perm :
      (p : A → Bool) {xs ys : List A} → Perm xs ys → Perm (keep_if p xs) (keep_if p ys)
  keep_if-perm p {xs} {ys} h = rw (keep_if-filter p xs, keep_if-filter p ys) (Perm.filter _ h)

  pub perm_of_eq : {xs ys : List A} → xs ≡ ys → Perm xs ys
  perm_of_eq {xs} e = subst (Perm xs) e (Perm.refl xs)

  pub perm-insert_at : (i : ℕ) (a : A) (xs : List A) → Perm (insert_at i a xs) (a ∷ xs)
  perm-insert_at zero a xs = Perm.refl _
  perm-insert_at (suc i) a [] = Perm.refl _
  perm-insert_at (suc i) a (x ∷ xs) =
      Perm.trans (Perm.cons x (perm-insert_at i a xs)) (Perm.swap a x xs)

  mem→All {κ} : (P : A → Type κ) (xs : List A) → ((a : A) → Mem a xs → P a) → All P xs
  mem→All P [] h = tt
  mem→All P (x ∷ xs) h = (h x mem-cons_self, mem→All P xs (λ a m. h a (mem-cons_of_mem x m)))

  All→mem {κ} :
      (P : A → Type κ)
      → ((a : A) → IsProp (P a))
      → (xs : List A) → All P xs
      → (a : A) → Mem a xs
      → P a
  All→mem P is_prop [] h a m = absurd (not-mem-nil m)
  All→mem P is_prop (x ∷ xs) h a m =
      Or.elim (is_prop a) (mem-cons.0 m) (λ e. rw e h.0) (All→mem P is_prop xs h.1 a)

  pub perm-All {κ} :
      (P : A → Type κ)
      → ((a : A) → IsProp (P a))
      → {xs ys : List A} → Perm xs ys
      → All P xs
      → All P ys
  perm-All P is_prop {xs} {ys} perm h =
      mem→All P ys (λ a m. All→mem P is_prop xs h a (Perm.subset (Perm.symm perm) a m))

-- Tables whose rows have a number for a key.
module _ {T : Type 0} (key : T → ℕ) where
  abbrev pub IsAbsent : ℕ → List T → Type 0
  IsAbsent a = All (λ z. key z ≢ a)

  abbrev pub IsDistinct : List T → Type 0
  IsDistinct [] = Unit {0}
  IsDistinct (z ∷ zs) = IsAbsent (key z) zs × IsDistinct zs

  not-mem_of_IsAbsent : (a : ℕ) (zs : List T) → IsAbsent a zs → ¬ Mem a (map key zs)
  not-mem_of_IsAbsent a [] h m = not-mem-nil m
  not-mem_of_IsAbsent a (z ∷ zs) h m =
      Or.elim ⊥_prop (mem-cons.0 m) (λ e. h.0 (sym e)) (not-mem_of_IsAbsent a zs h.1)

  IsAbsent-not-mem : (a : ℕ) (zs : List T) → ¬ Mem a (map key zs) → IsAbsent a zs
  IsAbsent-not-mem a [] h = tt
  IsAbsent-not-mem a (z ∷ zs) h =
      (λ e. h (mem-cons.1 (Or.inl (sym e))), IsAbsent-not-mem a zs (λ m. h (mem-cons_of_mem _ m)))

  Nodup-IsDistinct : (zs : List T) → IsDistinct zs → Nodup (map key zs)
  Nodup-IsDistinct [] d = Nodup-nil
  Nodup-IsDistinct (z ∷ zs) d =
      Nodup-cons.1 (not-mem_of_IsAbsent (key z) zs d.0, Nodup-IsDistinct zs d.1)

  IsDistinct-Nodup : (zs : List T) → Nodup (map key zs) → IsDistinct zs
  IsDistinct-Nodup [] d = tt
  IsDistinct-Nodup (z ∷ zs) d =
      (IsAbsent-not-mem (key z) zs (Nodup-cons.0 d).0, IsDistinct-Nodup zs (Nodup-cons.0 d).1)

  pub perm-IsDistinct : {xs ys : List T} → Perm xs ys → IsDistinct xs → IsDistinct ys
  perm-IsDistinct {xs} {ys} perm d =
      IsDistinct-Nodup ys (Perm.nodup (Perm.map key perm) (Nodup-IsDistinct xs d))

  pub perm-IsAbsent : (a : ℕ) {xs ys : List T} → Perm xs ys → IsAbsent a xs → IsAbsent a ys
  perm-IsAbsent a perm = perm-All (λ z. key z ≢ a) (λ z. ≢_prop (key z) a) perm

-- ===== src/Integrity/Keys.antt =====
-- How the references fare when rows are added, changed and deleted.
use kurultay.Base.{
  ℕ, ◌≡◌, refl, sym, subst, ◌∙◌, ◌≢◌, inl, inr, Bool, true, false, some, List, [], ◌∷◌, ◌++◌, arith,
  length, keep_if, find_first, any_of, All, ltb, ◌==◌, Bool-cases,
}
use kurultay.Base.Perms.{IsAbsent, IsDistinct}
use kurultay.Ordering.Tables.{update_where}
use kurultay.Store.{Column, Task}
use kurultay.Integrity.{has_column}

module _ {A : Type 0} (P : A → Type 0) where
  pub All-update_where :
      (p : A → Bool) (f : A → A) (xs : List A)
      → ((x : A) → P x → P (f x))
      → All P xs
      → All P (update_where p f xs)
  All-update_where p f [] keeps h = tt
  All-update_where p f (x ∷ xs) keeps h = elim (Bool-cases (p x)) [
    | inl hit ↦ rw hit (keeps x h.0, All-update_where p f xs keeps h.1)
    | inr miss ↦ rw miss (h.0, All-update_where p f xs keeps h.1)
  ]

  pub All-keep_if : (p : A → Bool) (xs : List A) → All P xs → All P (keep_if p xs)
  All-keep_if p [] h = tt
  All-keep_if p (x ∷ xs) h = elim (Bool-cases (p x)) [
    | inl kept ↦ rw kept (h.0, All-keep_if p xs h.1)
    | inr gone ↦ rw gone (All-keep_if p xs h.1)
  ]

  pub All-append : (xs ys : List A) → All P xs → All P ys → All P (xs ++ ys)
  All-append [] ys h k = k
  All-append (x ∷ xs) ys h k = (h.0, All-append xs ys h.1 k)

  pub All-weaken : (Q : A → Type 0) (xs : List A) → ((x : A) → P x → Q x) → All P xs → All Q xs
  All-weaken Q [] f h = tt
  All-weaken Q (x ∷ xs) f h = (f x h.0, All-weaken Q xs f h.1)

pub any_of-find_first :
    {A : Type 0} (p q : A → Bool) (xs : List A) {a : A}
    → find_first p xs ≡ some a
    → q a ≡ true
    → any_of q xs ≡ true
any_of-find_first p q [] e h = cc
any_of-find_first p q (x ∷ xs) {a} e h = elim (Bool-cases (p x)) [
  | inl hit ↦ let same : x ≡ a = ground arith in rw (same, h) refl
  | inr miss ↦ let later = any_of-find_first p q xs (rw miss at e) h in ground arith
]

module _ {Num : Type 0} (b i : ℕ) where
  pub has_column-append :
      (cs ds : List (Column Num)) → has_column cs b i ≡ true → has_column (cs ++ ds) b i ≡ true
  has_column-append [] ds h = cc
  has_column-append (c ∷ cs) ds h = ground (arith, has_column-append cs ds)

  pub has_column-update_where :
      (p : Column Num → Bool) (f : Column Num → Column Num) (cs : List (Column Num))
      → ((c : Column Num) → (f c).id ≡ c.id)
      → ((c : Column Num) → (f c).board_id ≡ c.board_id)
      → has_column (update_where p f cs) b i ≡ has_column cs b i
  has_column-update_where p f [] same_id same_board = refl
  has_column-update_where p f (c ∷ cs) same_id same_board =
      ground (arith, same_id c, same_board c, has_column-update_where p f cs same_id same_board)

  -- A column that goes is none that the task stands in.
  pub has_column-keep_if :
      (p : Column Num → Bool) (gone : ℕ) (cs : List (Column Num))
      → ((c : Column Num) → p c ≡ false → c.id ≡ gone)
      → i ≢ gone
      → has_column cs b i ≡ true
      → has_column (keep_if p cs) b i ≡ true
  has_column-keep_if p gone [] only apart h = cc
  has_column-keep_if p gone (c ∷ cs) only apart h =
      ground (arith, only c, has_column-keep_if p gone cs only apart)

-- No task stands in a column that has none.
pub none_in :
    {Num : Type 0} (i : ℕ) (ts : List (Task Num))
    → ltb 0 (length (keep_if (λ t. t.column_id == i) ts)) ≡ false
    → All (λ t. t.column_id ≢ i) ts
none_in i [] h = tt
none_in i (t ∷ ts) h = elim (Bool-cases (t.column_id == i)) [
  | inl here ↦ absurd (ground arith)
  | inr away ↦ (ground arith, none_in i ts (rw away at h))
]

pub All-both :
    {A : Type 0} (P Q R : A → Type 0) (xs : List A)
    → ((x : A) → P x → Q x → R x)
    → All P xs
    → All Q xs
    → All R xs
All-both P Q R [] f h k = tt
All-both P Q R (x ∷ xs) f h k = (f x h.0 k.0, All-both P Q R xs f h.1 k.1)

module _ {Num : Type 0} where
  pub IsAbsent-update_where :
      (a : ℕ) (p : Task Num → Bool) (f : Task Num → Task Num) (ts : List (Task Num))
      → ((t : Task Num) → (f t).id ≡ t.id)
      → IsAbsent (λ (t : Task Num). t.id) a ts
      → IsAbsent (λ (t : Task Num). t.id) a (update_where p f ts)
  IsAbsent-update_where a p f ts same h =
      All-update_where (λ t. t.id ≢ a) p f ts (λ t k e. k (sym (same t) ∙ e)) h

  pub IsDistinct-update_where :
      (p : Task Num → Bool) (f : Task Num → Task Num) (ts : List (Task Num))
      → ((t : Task Num) → (f t).id ≡ t.id)
      → IsDistinct (λ (t : Task Num). t.id) ts
      → IsDistinct (λ (t : Task Num). t.id) (update_where p f ts)
  IsDistinct-update_where p f [] same d = tt
  IsDistinct-update_where p f (t ∷ ts) same d = elim (Bool-cases (p t)) [
    | inl hit ↦ rw hit (
      subst (λ a. IsAbsent (λ (x : Task Num). x.id) a (update_where p f ts)) (sym (same t))
          (IsAbsent-update_where t.id p f ts same d.0),
      IsDistinct-update_where p f ts same d.1,
    )
    | inr miss ↦
        rw miss
          (IsAbsent-update_where t.id p f ts same d.0, IsDistinct-update_where p f ts same d.1)
  ]

  pub IsDistinct-keep_if :
      (p : Task Num → Bool) (ts : List (Task Num))
      → IsDistinct (λ (t : Task Num). t.id) ts
      → IsDistinct (λ (t : Task Num). t.id) (keep_if p ts)
  IsDistinct-keep_if p [] d = tt
  IsDistinct-keep_if p (t ∷ ts) d = elim (Bool-cases (p t)) [
    | inl kept ↦ rw kept (All-keep_if (λ x. x.id ≢ t.id) p ts d.0, IsDistinct-keep_if p ts d.1)
    | inr gone ↦ rw gone (IsDistinct-keep_if p ts d.1)
  ]

  pub IsDistinct-append_one :
      (ts : List (Task Num)) (t : Task Num)
      → IsAbsent (λ (x : Task Num). x.id) t.id ts
      → IsDistinct (λ (x : Task Num). x.id) ts
      → IsDistinct (λ (x : Task Num). x.id) (ts ++ t ∷ [])
  IsDistinct-append_one [] t h d = (tt, tt)
  IsDistinct-append_one (x ∷ xs) t h d = (
    All-append (λ y. y.id ≢ x.id) xs (t ∷ []) d.0 (λ e. h.0 (sym e), tt),
    IsDistinct-append_one xs t h.1 d.1,
  )

-- ===== src/Mentions/Tokens.antt =====
-- The patterns at a token, and away from one.
use mathlib.Core.List.{append_assoc}
use kurultay.Base.{
  ℕ, zero, suc, ◌≤◌, ◌≡◌, refl, sym, ap, ◌∙◌, inl, inr, Bool, false, none, some, List, [], ◌∷◌,
  ◌++◌, map, arith, All, length, ◌==◌, if◌then◌else◌, Option-cases,
}
use kurultay.Mentions.{
  Text, codes, text_eq, fold_case, match_literal, match_classes, max_mention_name, match_name,
  match_head, uuid_v7, match_mention, match_mention_of,
}

-- None of the characters is this one.
abbrev pub Avoids : ℕ → Text → Type 0
Avoids mark = All (λ c. (c == mark) ≡ false)

-- A text that the pattern of ids matches whole.
abbrev pub IsUuid : Text → Type 0
IsUuid id = match_classes uuid_v7 id ≡ some (id, [])

abbrev pub IsName : Text → Type 0
IsName name = Avoids b']' name × (length name ≤ max_mention_name)

-- A token without its first character.
abbrev pub token_tail : Text → Text → Text
token_tail name id = b'[' ∷ (name ++ (b']' ∷ b'(' ∷ (id ++ b')' ∷ [])))

match_name_lem :
    (left : ℕ) (name rest : Text)
    → Avoids b']' name
    → length name ≤ left
    → match_name left (name ++ b']' ∷ rest) ≡ some rest
unfolding match_name
match_name_lem zero [] rest h k = refl
match_name_lem (suc left) [] rest h k = refl
match_name_lem zero (c ∷ name) rest h k = absurd (omega arith)
match_name_lem (suc left) (c ∷ name) rest h k =
    ground (arith, match_name_lem left name rest h.1 (omega arith))

match_classes-append :
    (ps : List (ℕ → Bool)) (xs rest found behind : Text)
    → match_classes ps xs ≡ some (found, behind)
    → match_classes ps (xs ++ rest) ≡ some (found, behind ++ rest)
unfolding match_classes
match_classes-append [] xs rest found behind e =
    let same : xs ≡ behind = ground arith in ground (arith, ap (λ t. t ++ rest) same)
match_classes-append (p ∷ ps) [] rest found behind e = cc
match_classes-append (p ∷ ps) (x ∷ xs) rest found behind e =
    elim (Option-cases (match_classes ps xs)) [
      | inl stuck ↦ absurd (ground arith)
      | inr (m, matched) ↦
          let further = match_classes-append ps xs rest m.0 m.1 matched in
          let over : m.1 ≡ behind = ground arith in
          ground (arith, further, ap (λ t. t ++ rest) over)
    ]

-- A pattern needs an `@`.
pub match_head-none : (c : ℕ) (cs : Text) → (c == b'@') ≡ false → match_head (c ∷ cs) ≡ none
unfolding match_head
match_head-none c cs h =
    let other : (fold_case b'@' == fold_case c) ≡ false = ground arith in ground arith

token-append :
    (name id rest : Text)
    → token_tail name id ++ rest ≡ b'[' ∷ (name ++ b']' ∷ (b'(' ∷ (id ++ b')' ∷ rest)))
token-append name id rest =
    ap (λ t. b'[' ∷ t)
      (append_assoc name (b']' ∷ b'(' ∷ (id ++ b')' ∷ [])) rest
        ∙ ap (λ t. name ++ b']' ∷ b'(' ∷ t) (append_assoc id (b')' ∷ []) rest))

match_head_lem :
    (name id rest : Text)
    → IsName name
    → match_head (b'@' ∷ (token_tail name id ++ rest)) ≡ some (id ++ b')' ∷ rest)
unfolding match_head
match_head_lem name id rest h =
    let named = match_name_lem max_mention_name name (b'(' ∷ (id ++ b')' ∷ rest)) h.0 h.1 in
    let text = token-append name id rest in
    ap (λ t. match_head (b'@' ∷ t)) text ∙ ground (arith, named)

pub match_mention_lem :
    (name id rest : Text)
    → IsName name
    → IsUuid id
    → match_mention (b'@' ∷ (token_tail name id ++ rest)) ≡ some (id, rest)
unfolding match_mention
match_mention_lem name id rest h u =
    let head = match_head_lem name id rest h in
    let classes = match_classes-append uuid_v7 id (b')' ∷ rest) id [] u in
    ground (arith, head, classes)

-- The same id, case aside.
abbrev pub is_same_id : Text → Text → Bool
is_same_id a b = text_eq (map fold_case a) (map fold_case b)

match_literal-id :
    (a b rest : Text)
    → length a ≡ length b
    → match_literal (a ++ codes ")") (b ++ b')' ∷ rest)
      ≡ (if is_same_id a b then some rest else none)
unfolding match_literal
match_literal-id [] [] rest e = refl
match_literal-id [] (d ∷ b) rest e = absurd (omega arith)
match_literal-id (c ∷ a) [] rest e = absurd (omega arith)
match_literal-id (c ∷ a) (d ∷ b) rest e = ground (arith, match_literal-id a b rest (omega arith))

length-classes :
    (ps : List (ℕ → Bool)) (xs found behind : Text)
    → match_classes ps xs ≡ some (found, behind)
    → length found ≡ length ps
unfolding match_classes
length-classes [] xs found behind e = ground arith
length-classes (p ∷ ps) [] found behind e = cc
length-classes (p ∷ ps) (x ∷ xs) found behind e = elim (Option-cases (match_classes ps xs)) [
  | inl stuck ↦ absurd (ground arith)
  | inr (m, matched) ↦
      let shorter = length-classes ps xs m.0 m.1 matched in
      let it : x ∷ m.0 ≡ found = ground arith in omega (arith, shorter, ap length it)
]

pub match_mention_of_lem :
    (user_id name id rest : Text)
    → IsUuid user_id
    → IsName name
    → IsUuid id
    → match_mention_of user_id (b'@' ∷ (token_tail name id ++ rest))
      ≡ (if is_same_id user_id id then some rest else none)
unfolding match_mention_of
match_mention_of_lem user_id name id rest v h u =
    let head = match_head_lem name id rest h in
    let size : length user_id ≡ length id =
      length-classes uuid_v7 user_id user_id [] v ∙ sym (length-classes uuid_v7 id id [] u) in
    let literal = match_literal-id user_id id rest size in ground (arith, head, literal)

-- ===== src/Mentions/Segments.antt =====
-- Bodies made of tokens and the text between them: what is written is what is read.
use kurultay.Base.{
  ℕ, ◌-◌, ◌≡◌, refl, sym, subst, any_of, ◌||◌, ap, ◌∙◌, false, none, some, List, [], ◌∷◌, ◌++◌, map,
  arith, All, length, length-append, ◌==◌,
}
use kurultay.Mentions.{Text, text_eq, match_mention, ids_from, unique_from, parse_mentions, mention}
use kurultay.Mentions.Unique.{firsts, IsOnce, unique_from_lem, any_of-firsts, firsts-IsOnce}
use kurultay.Mentions.Tokens.{
  Avoids, IsUuid, IsName, token_tail, match_head-none, match_mention_lem,
}

-- A token with the text before it.
pub record Segment : Type 0 where
  pub before : Text
  pub name : Text
  pub id : Text

abbrev pub render : List Segment → Text → Text
render [] tail = tail
render (s ∷ ss) tail = s.before ++ (mention s.name s.id ++ render ss tail)

-- The text between the tokens has no `@`, and a name is one that the pattern takes.
abbrev pub IsSegment : Segment → Type 0
IsSegment s = Avoids b'@' s.before × IsName s.name × IsUuid s.id

ids_from-none :
    (c : ℕ) (cs : Text) → match_mention (c ∷ cs) ≡ none → ids_from 0 (c ∷ cs) ≡ ids_from 0 cs
unfolding ids_from
ids_from-none c cs e = ground arith

ids_from-some :
    (c : ℕ) (cs id behind : Text)
    → match_mention (c ∷ cs) ≡ some (id, behind)
    → ids_from 0 (c ∷ cs) ≡ id ∷ ids_from (length cs - length behind) cs
unfolding ids_from
ids_from-some c cs id behind e = ground arith

ids_from-skip : (xs ys : Text) → ids_from (length xs) (xs ++ ys) ≡ ids_from 0 ys
unfolding ids_from
ids_from-skip [] ys = refl
ids_from-skip (x ∷ xs) ys = ids_from-skip xs ys

match_mention-none : (c : ℕ) (cs : Text) → (c == b'@') ≡ false → match_mention (c ∷ cs) ≡ none
unfolding match_mention
match_mention-none c cs e = ground (arith, match_head-none c cs e)

ids_from-text : (xs ys : Text) → Avoids b'@' xs → ids_from 0 (xs ++ ys) ≡ ids_from 0 ys
ids_from-text [] ys h = refl
ids_from-text (x ∷ xs) ys h =
    ids_from-none x (xs ++ ys) (match_mention-none x (xs ++ ys) h.0) ∙ ids_from-text xs ys h.1

pub length-skip : (xs ys : Text) → length (xs ++ ys) - length ys ≡ length xs
length-skip xs ys = omega (arith, length-append {0} xs ys)

ids_from-mention :
    (name id rest : Text)
    → IsName name
    → IsUuid id
    → ids_from 0 (mention name id ++ rest) ≡ id ∷ ids_from 0 rest
ids_from-mention name id rest h u =
    let tail = token_tail name id in
    ids_from-some b'@' (tail ++ rest) id rest (match_mention_lem name id rest h u)
    ∙ ap (λ k. id ∷ ids_from k (tail ++ rest)) (length-skip tail rest)
    ∙ ap (λ t. id ∷ t) (ids_from-skip tail rest)

ids_from-end : (tail : Text) → Avoids b'@' tail → ids_from 0 tail ≡ []
unfolding ids_from
ids_from-end [] h = refl
ids_from-end (c ∷ tail) h =
    ids_from-none c tail (match_mention-none c tail h.0) ∙ ids_from-end tail h.1

pub ids_from-render :
    (ss : List Segment) (tail : Text)
    → All IsSegment ss
    → Avoids b'@' tail
    → ids_from 0 (render ss tail) ≡ map (λ s. s.id) ss
ids_from-render [] tail h k = ids_from-end tail k
ids_from-render (s ∷ ss) tail h k =
    ids_from-text s.before _ h.0.0
    ∙ ids_from-mention s.name s.id (render ss tail) h.0.1 h.0.2
    ∙ ap (λ t. s.id ∷ t) (ids_from-render ss tail h.1 k)

pub parse_mentions-firsts :
    (ss : List Segment) (tail : Text)
    → All IsSegment ss
    → Avoids b'@' tail
    → parse_mentions (render ss tail) ≡ firsts (map (λ s. s.id) ss)
unfolding parse_mentions
parse_mentions-firsts ss tail h k =
    ap (unique_from []) (ids_from-render ss tail h k) ∙ unique_from_lem (map (λ s. s.id) ss)

any_of-ids :
    (id : Text) (ss : List Segment)
    → any_of (text_eq id) (map (λ s. s.id) ss) ≡ any_of (λ s. text_eq id s.id) ss
any_of-ids id [] = refl
any_of-ids id (s ∷ ss) = ap (λ b. text_eq id s.id || b) (any_of-ids id ss)

-- From a body made of tokens and of text without `@`, the ids of the tokens are read: each is, no id
-- twice, and in the order of their first tokens. The names are ones that the pattern takes: without `]`, and of at most 200
-- characters; the ids are UUIDs of version 7.
pub parse_mentions-render :
    (ss : List Segment) (tail : Text)
    → All IsSegment ss
    → Avoids b'@' tail
    → (parse_mentions (render ss tail) ≡ firsts (map (λ s. s.id) ss))
      × IsOnce (parse_mentions (render ss tail))
      × ((id : Text)
          → any_of (text_eq id) (parse_mentions (render ss tail))
            ≡ any_of (λ s. text_eq id s.id) ss)
parse_mentions-render ss tail h k =
    let read = parse_mentions-firsts ss tail h k in
    (
      read,
      subst IsOnce (sym read) (firsts-IsOnce (map (λ s. s.id) ss)),
      λ id.
          ap (any_of (text_eq id)) read ∙ any_of-firsts id (map (λ s. s.id) ss) ∙ any_of-ids id ss,
    )

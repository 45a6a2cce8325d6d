-- ===== src/Mentions/Redacted.antt =====
-- What the redaction makes of a body of tokens.
use kurultay.Base.{
  ℕ, zero, suc, take, ◌-◌, ◌≡◌, refl, sym, ap, subst, ◌∙◌, inl, inr, Bool, true, false, none, some,
  List, [], ◌∷◌, ◌++◌, map, arith, All, length, ◌==◌, ==_iff, if◌then◌else◌, Bool-cases,
  Option-cases,
}
use kurultay.Mentions.{
  Text, match_classes, uuid_v7, parse_mentions, match_mention_of, mention, expand_replacement,
  redact_from, redact_mentions_of,
}
use kurultay.Mentions.Tokens.{
  Avoids, IsUuid, IsName, token_tail, match_head-none, is_same_id, match_mention_of_lem,
}
use kurultay.Mentions.Segments.{Segment, render, IsSegment, length-skip, parse_mentions-firsts}
use kurultay.Mentions.Unique.{firsts}

Avoids-append : (mark : ℕ) (xs ys : Text) → Avoids mark xs → Avoids mark ys → Avoids mark (xs ++ ys)
Avoids-append mark [] ys h k = k
Avoids-append mark (x ∷ xs) ys h k = (h.0, Avoids-append mark xs ys h.1 k)

Avoids-classes :
    (mark : ℕ) (ps : List (ℕ → Bool)) (xs found behind : Text)
    → All (λ (p : ℕ → Bool). p mark ≡ false) ps
    → match_classes ps xs ≡ some (found, behind)
    → Avoids mark found
unfolding match_classes
Avoids-classes mark [] xs found behind h e =
    let nothing : [] ≡ found = ground arith in subst (Avoids mark) nothing tt
Avoids-classes mark (p ∷ ps) [] found behind h e = cc
Avoids-classes mark (p ∷ ps) (x ∷ xs) found behind h e = elim (Option-cases (match_classes ps xs)) [
  | inl stuck ↦ absurd (ground arith)
  | inr (m, matched) ↦
      let rest = Avoids-classes mark ps xs m.0 m.1 h.1 matched in
      let it : x ∷ m.0 ≡ found = ground arith in
      let hit : p x ≡ true = ground arith in subst (Avoids mark) it (other x hit, rest)
]
  where
    other : (x : ℕ) → p x ≡ true → (x == mark) ≡ false
    other x hit = elim (Bool-cases (x == mark)) [
      | inl same ↦ cc ((==_iff x mark).0 same, h.0)
      | inr far ↦ far
    ]

uuid-Avoids : (id : Text) → IsUuid id → Avoids b'@' id
uuid-Avoids id u = Avoids-classes b'@' uuid_v7 id id [] (ground arith) u

uuid-Avoids_dollar : (id : Text) → IsUuid id → Avoids b'$' id
uuid-Avoids_dollar id u = Avoids-classes b'$' uuid_v7 id id [] (ground arith) u

module _ (before matched behind : Text) where
  expand_replacement-plain :
      (text : Text) → Avoids b'$' text → expand_replacement before matched behind text ≡ text
  unfolding expand_replacement
  expand_replacement-plain [] h = refl
  expand_replacement-plain (c ∷ []) h = refl
  expand_replacement-plain (c ∷ d ∷ ds) h =
      rw h.0 (ap (◌∷◌ c) (expand_replacement-plain (d ∷ ds) h.1))

module _ (user_id replacement : Text) where
  -- The token of the person with the new name, and any other as it is.
  abbrev pub renamed : Segment → Segment
  renamed s = if is_same_id user_id s.id then record s { name = replacement; id = user_id } else s

  renamed-before : (s : Segment) → (renamed s).before ≡ s.before
  renamed-before s = elim (Bool-cases (is_same_id user_id s.id)) [
    | inl same ↦ rw same
    | inr other ↦ rw other
  ]

  renamed-IsSegment :
      (s : Segment) → IsUuid user_id → IsName replacement → IsSegment s → IsSegment (renamed s)
  renamed-IsSegment s v r h = elim (Bool-cases (is_same_id user_id s.id)) [
    | inl same ↦ rw same (h.0, r, v)
    | inr other ↦ rw other h
  ]

  each_renamed :
      (ss : List Segment)
      → IsUuid user_id
      → IsName replacement
      → All IsSegment ss
      → All IsSegment (map renamed ss)
  each_renamed [] v r h = tt
  each_renamed (s ∷ ss) v r h = (renamed-IsSegment s v r h.0, each_renamed ss v r h.1)

module _ (user_id replacement : Text) (plain : Avoids b'$' (mention replacement user_id)) where
  redact_from-passes :
      (b : Text) (c : ℕ) (cs : Text)
      → match_mention_of user_id (c ∷ cs) ≡ none
      → redact_from user_id replacement b 0 (c ∷ cs)
        ≡ c ∷ redact_from user_id replacement (b ++ c ∷ []) 0 cs
  unfolding redact_from
  redact_from-passes b c cs e = ground arith

  redact_from-replaces :
      (b : Text) (c : ℕ) (cs behind : Text)
      → match_mention_of user_id (c ∷ cs) ≡ some behind
      → redact_from user_id replacement b 0 (c ∷ cs)
        ≡ mention replacement user_id
          ++ redact_from user_id replacement (b ++ c ∷ []) (length cs - length behind) cs
  unfolding redact_from
  redact_from-replaces b c cs behind e =
      let whole = take (length (c ∷ cs) - length behind) (c ∷ cs) in
      let step : redact_from user_id replacement b 0 (c ∷ cs)
          ≡ expand_replacement b whole behind (mention replacement user_id)
            ++ redact_from user_id replacement (b ++ c ∷ []) (length cs - length behind) cs =
        ground (arith, e) in
      step
      ∙ ap (λ t. t ++ redact_from user_id replacement (b ++ c ∷ []) (length cs - length behind) cs)
          (expand_replacement-plain b whole behind (mention replacement user_id) plain)

  -- A plain replacement does not depend on what stands around the match.
  redact_from-before :
      (b b' : Text) (skip : ℕ) (text : Text)
      → redact_from user_id replacement b skip text ≡ redact_from user_id replacement b' skip text
  unfolding redact_from
  redact_from-before b b' skip [] = refl
  redact_from-before b b' (suc skip) (c ∷ cs) =
      redact_from-before (b ++ c ∷ []) (b' ++ c ∷ []) skip cs
  redact_from-before b b' zero (c ∷ cs) = elim (Option-cases (match_mention_of user_id (c ∷ cs))) [
    | inl missed ↦
        redact_from-passes b c cs missed
        ∙ ap (◌∷◌ c) (redact_from-before (b ++ c ∷ []) (b' ++ c ∷ []) 0 cs)
        ∙ sym (redact_from-passes b' c cs missed)
    | inr (behind, found) ↦
        redact_from-replaces b c cs behind found
        ∙ ap (λ t. mention replacement user_id ++ t)
            (redact_from-before (b ++ c ∷ []) (b' ++ c ∷ []) (length cs - length behind) cs)
        ∙ sym (redact_from-replaces b' c cs behind found)
  ]

  redact_from-none :
      (c : ℕ) (cs : Text)
      → match_mention_of user_id (c ∷ cs) ≡ none
      → redact_from user_id replacement [] 0 (c ∷ cs) ≡ c ∷ redact_from user_id replacement [] 0 cs
  redact_from-none c cs e =
      redact_from-passes [] c cs e ∙ ap (◌∷◌ c) (redact_from-before (c ∷ []) [] 0 cs)

  redact_from-some :
      (c : ℕ) (cs behind : Text)
      → match_mention_of user_id (c ∷ cs) ≡ some behind
      → redact_from user_id replacement [] 0 (c ∷ cs)
        ≡ mention replacement user_id
          ++ redact_from user_id replacement [] (length cs - length behind) cs
  redact_from-some c cs behind e =
      redact_from-replaces [] c cs behind e
      ∙ ap (λ t. mention replacement user_id ++ t)
          (redact_from-before (c ∷ []) [] (length cs - length behind) cs)

  redact_from-skip :
      (xs ys : Text)
      → redact_from user_id replacement [] (length xs) (xs ++ ys)
        ≡ redact_from user_id replacement [] 0 ys
  unfolding redact_from
  redact_from-skip [] ys = refl
  redact_from-skip (x ∷ xs) ys =
      redact_from-before (x ∷ []) [] (length xs) (xs ++ ys) ∙ redact_from-skip xs ys

  match_mention_of-none :
      (c : ℕ) (cs : Text) → (c == b'@') ≡ false → match_mention_of user_id (c ∷ cs) ≡ none
  unfolding match_mention_of
  match_mention_of-none c cs e = ground (arith, match_head-none c cs e)

  redact_from-text :
      (xs ys : Text)
      → Avoids b'@' xs
      → redact_from user_id replacement [] 0 (xs ++ ys)
        ≡ xs ++ redact_from user_id replacement [] 0 ys
  redact_from-text [] ys h = refl
  redact_from-text (x ∷ xs) ys h =
      redact_from-none x (xs ++ ys) (match_mention_of-none x (xs ++ ys) h.0)
      ∙ ap (◌∷◌ x) (redact_from-text xs ys h.1)

  redact_from-end :
      (tail : Text) → Avoids b'@' tail → redact_from user_id replacement [] 0 tail ≡ tail
  unfolding redact_from
  redact_from-end [] h = refl
  redact_from-end (c ∷ tail) h =
      redact_from-none c tail (match_mention_of-none c tail h.0)
      ∙ ap (◌∷◌ c) (redact_from-end tail h.1)

  token-Avoids : (name id : Text) → Avoids b'@' name → IsUuid id → Avoids b'@' (token_tail name id)
  token-Avoids name id h u = (
    refl,
    Avoids-append b'@' name _ h
        (refl, (refl, Avoids-append b'@' id (b')' ∷ []) (uuid-Avoids id u) (refl, tt))),
  )

  redact_from-mention :
      (s : Segment) (rest : Text)
      → IsUuid user_id
      → IsSegment s
      → Avoids b'@' s.name
      → redact_from user_id replacement [] 0 (mention s.name s.id ++ rest)
        ≡ mention (renamed user_id replacement s).name (renamed user_id replacement s).id
          ++ redact_from user_id replacement [] 0 rest
  redact_from-mention s rest v h k =
      let tail = token_tail s.name s.id in
      let matched = match_mention_of_lem user_id s.name s.id rest v h.1 h.2 in
      elim (Bool-cases (is_same_id user_id s.id)) [
        | inl same ↦ rw same (
            redact_from-some b'@' (tail ++ rest) rest (rw same at matched)
            ∙ ap
                (λ n.
                  mention replacement user_id
                  ++ redact_from user_id replacement [] n (tail ++ rest))
                (length-skip tail rest)
            ∙ ap (λ t. mention replacement user_id ++ t) (redact_from-skip tail rest))
        | inr other ↦ rw other (
            redact_from-none b'@' (tail ++ rest) (rw other at matched)
            ∙ ap (◌∷◌ b'@') (redact_from-text tail rest (token-Avoids s.name s.id k h.2)))
      ]

  redact_from-render :
      (ss : List Segment) (tail : Text)
      → IsUuid user_id
      → All IsSegment ss
      → All (λ (s : Segment). Avoids b'@' s.name) ss
      → Avoids b'@' tail
      → redact_from user_id replacement [] 0 (render ss tail)
        ≡ render (map (renamed user_id replacement) ss) tail
  redact_from-render [] tail v h k e = redact_from-end tail e
  redact_from-render (s ∷ ss) tail v h k e =
      redact_from-text s.before _ h.0.0
      ∙ ap (λ t. s.before ++ t) (redact_from-mention s (render ss tail) v h.0 k.0)
      ∙ ap
          (λ t.
            s.before
            ++ (mention (renamed user_id replacement s).name (renamed user_id replacement s).id
                ++ t))
          (redact_from-render ss tail v h.1 k.1 e)
      ∙ ap
          (λ t.
            t
            ++ (mention (renamed user_id replacement s).name (renamed user_id replacement s).id
                ++ render (map (renamed user_id replacement) ss) tail))
          (sym (renamed-before user_id replacement s))

module _ (user_id replacement : Text) where
  mention-Avoids :
      IsUuid user_id → Avoids b'$' replacement → Avoids b'$' (mention replacement user_id)
  mention-Avoids v d = (
    refl,
    (
      refl,
      Avoids-append b'$' replacement _ d (
        refl,
        (refl, Avoids-append b'$' user_id (b')' ∷ []) (uuid-Avoids_dollar user_id v) (refl, tt)),
      ),
    ),
  )

  -- In a body made of tokens and of text without `@`, the redaction puts the replacement for the
  -- name, and the id as it is given, into every token of the person, whatever the case of the id
  -- there, and leaves all the other tokens and the text between them. The names are ones that the
  -- pattern takes, without `@`, the replacement has no `$`, and the ids are UUIDs of version 7. The
  -- mentions that are read from it then are the ones read before, the person's under that id.
  pub redact_mentions_of_lem :
      (ss : List Segment) (tail : Text)
      → IsUuid user_id
      → IsName replacement
      → Avoids b'$' replacement
      → All IsSegment ss
      → All (λ (s : Segment). Avoids b'@' s.name) ss
      → Avoids b'@' tail
      → (redact_mentions_of (render ss tail) user_id replacement
          ≡ render (map (renamed user_id replacement) ss) tail)
        × (parse_mentions (redact_mentions_of (render ss tail) user_id replacement)
            ≡ firsts (map (λ s. s.id) (map (renamed user_id replacement) ss)))
  unfolding redact_mentions_of
  redact_mentions_of_lem ss tail v r d h k e =
      let written = redact_from-render user_id replacement (mention-Avoids v d) ss tail v h k e in
      (
        written,
        ap parse_mentions written
            ∙ parse_mentions-firsts (map (renamed user_id replacement) ss) tail
                (each_renamed user_id replacement ss v r h) e,
      )

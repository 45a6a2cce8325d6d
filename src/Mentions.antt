-- ===== src/Mentions.antt =====
-- common/mentions: the ids that the `@[Name](userId)` tokens of a comment name, and the names taken
-- out of them. A text is the list of its UTF-16 code units; a global regular expression is a scan
-- that tries each position and goes on behind a match.
pub mod Unique
pub mod Tokens
pub mod Segments
pub mod Redacted
use Prim.Native.Char.{code}
use kurultay.Base.{
  ℕ, zero, suc, ◌+◌, ◌-◌, ◌&&◌, ◌||◌, not, Bool, true, false, Option, none, some, String, List, [],
  ◌∷◌, ◌++◌, length, take, any_of, ltb, leb, ◌==◌, if◌then◌else◌,
}

abbrev pub Text : Type 0
Text = List ℕ

abbrev pub codes : String → Text
codes String.[] = []
codes (String.◌∷◌ c s) = code c ∷ codes s

abbrev pub text_eq : Text → Text → Bool
text_eq [] [] = true
text_eq (c ∷ cs) (d ∷ ds) = c == d && text_eq cs ds
text_eq _ _ = false

-- The flag `i`, at the letters that the patterns hold.
abbrev pub fold_case : ℕ → ℕ
fold_case c = if leb b'A' c && leb c b'Z' then c + 32 else c

-- A pattern of fixed characters, case aside; what stands behind it.
unfoldable pub match_literal : Text → Text → Option Text
match_literal [] text = some text
match_literal (p ∷ ps) [] = none
match_literal (p ∷ ps) (c ∷ cs) =
    let rest = match_literal ps cs in if fold_case p == fold_case c then rest else none

-- A pattern of character classes: the text that it matches, and what stands behind it.
unfoldable pub match_classes : List (ℕ → Bool) → Text → Option (Text × Text)
match_classes [] text = some ([], text)
match_classes (p ∷ ps) [] = none
match_classes (p ∷ ps) (c ∷ cs) =
    let rest : Option (Text × Text) = elim (match_classes ps cs) [
      | none ↦ none
      | some (found, text) ↦ some (c ∷ found, text)
    ] in
    if p c then rest else none

-- `MAX_MENTION_NAME`
abbrev pub max_mention_name : ℕ
max_mention_name = 200

-- `[^\]]{0,200}\]`: the run of other characters ends at the first `]`, so there is one way to match.
unfoldable pub match_name : ℕ → Text → Option Text
match_name left [] = none
match_name zero (c ∷ cs) = if c == b']' then some cs else none
match_name (suc left) (c ∷ cs) =
    let rest = match_name left cs in if c == b']' then some cs else rest

-- `@\[[^\]]{0,200}\]\(`
unfoldable pub match_head : Text → Option Text
unfolding match_name match_literal
match_head text = elim (match_literal (codes "@[") text) [
  | none ↦ none
  | some named ↦ elim (match_name max_mention_name named) [
    | none ↦ none
    | some rest ↦ match_literal (codes "(") rest
  ]
]

abbrev pub is_hex : ℕ → Bool
is_hex c = (leb b'0' c && leb c b'9') || (leb b'a' (fold_case c) && leb (fold_case c) b'f')

abbrev pub is_variant : ℕ → Bool
is_variant c = c == b'8' || c == b'9' || fold_case c == b'a' || fold_case c == b'b'

abbrev pub hex_digits : ℕ → List (ℕ → Bool) → List (ℕ → Bool)
hex_digits zero next = next
hex_digits (suc n) next = is_hex ∷ hex_digits n next

-- `[0-9a-f]{8}-[0-9a-f]{4}-7[0-9a-f]{3}-[89ab][0-9a-f]{3}-[0-9a-f]{12}`
abbrev pub uuid_v7 : List (ℕ → Bool)
uuid_v7 = hex_digits 8 (
    (λ c. c == b'-')
    ∷ hex_digits 4 (
        (λ c. c == b'-')
        ∷ (λ c. c == b'7')
        ∷ hex_digits 3
            ((λ c. c == b'-') ∷ is_variant ∷ hex_digits 3 ((λ c. c == b'-') ∷ hex_digits 12 []))))

-- `MENTION_RE` at the start of a text: the second group, and what stands behind the match.
unfoldable pub match_mention : Text → Option (Text × Text)
unfolding match_head match_classes match_literal
match_mention text = elim (match_head text) [
  | none ↦ none
  | some rest ↦ elim (match_classes uuid_v7 rest) [
    | none ↦ none
    | some (id, closed) ↦ elim (match_literal (codes ")") closed) [
      | none ↦ none
      | some behind ↦ some (id, behind)
    ]
  ]
]

-- `body.matchAll(MENTION_RE)`, the characters of the last match that are left to pass first.
unfoldable pub ids_from : ℕ → Text → List Text
unfolding match_mention
ids_from skip [] = []
ids_from (suc skip) (c ∷ cs) = ids_from skip cs
ids_from zero (c ∷ cs) = elim (match_mention (c ∷ cs)) [
  | none ↦ ids_from 0 cs
  | some (id, behind) ↦ id ∷ ids_from (length cs - length behind) cs
]

-- `[...new Set(ids)]`, with the ids that the set has so far.
abbrev pub unique_from : List Text → List Text → List Text
unique_from seen [] = []
unique_from seen (id ∷ ids) =
    let rest = unique_from (id ∷ seen) ids in
    let others = unique_from seen ids in if any_of (text_eq id) seen then others else id ∷ rest

unfoldable pub parse_mentions : Text → List Text
unfolding ids_from
parse_mentions body = unique_from [] (ids_from 0 body)

-- The pattern of `redactMentionsOf` at the start of a text.
unfoldable pub match_mention_of : Text → Text → Option Text
unfolding match_head match_literal
match_mention_of user_id text = elim (match_head text) [
  | none ↦ none
  | some rest ↦ match_literal (user_id ++ codes ")") rest
]

-- `@[replacement](userId)`
abbrev pub mention : Text → Text → Text
mention name id = codes "@[" ++ (name ++ (codes "](" ++ (id ++ codes ")")))

-- What `String.prototype.replace` makes of a replacement string for a pattern without groups: `$$`
-- is a dollar, and `$&`, `` $` `` and `$'` are the match, the text before it and the text behind it.
unfoldable pub expand_replacement : (before matched behind : Text) → Text → Text
expand_replacement before matched behind [] = []
expand_replacement before matched behind (c ∷ []) = c ∷ []
expand_replacement before matched behind (c ∷ d ∷ ds) =
    let rest = expand_replacement before matched behind ds in
    let passed = c ∷ expand_replacement before matched behind (d ∷ ds) in
    if not (c == b'$')
    then passed
    else if d == b'$'
    then b'$' ∷ rest
    else if d == b'&'
    then matched ++ rest
    else if d == b'`'
    then before ++ rest
    else if d == b'\''
    then behind ++ rest
    else passed

-- `before` is what the scan has passed of the body.
unfoldable pub redact_from : (user_id replacement before : Text) → ℕ → Text → Text
unfolding match_mention_of expand_replacement
redact_from user_id replacement before skip [] = []
redact_from user_id replacement before (suc skip) (c ∷ cs) =
    redact_from user_id replacement (before ++ c ∷ []) skip cs
redact_from user_id replacement before zero (c ∷ cs) = elim (match_mention_of user_id (c ∷ cs)) [
  | none ↦ c ∷ redact_from user_id replacement (before ++ c ∷ []) 0 cs
  | some behind ↦
      expand_replacement before (take (length (c ∷ cs) - length behind) (c ∷ cs)) behind
        (mention replacement user_id)
      ++ redact_from user_id replacement (before ++ c ∷ []) (length cs - length behind) cs
]

unfoldable pub redact_mentions_of : (body user_id replacement : Text) → Text
unfolding redact_from
redact_mentions_of body user_id replacement = redact_from user_id replacement [] 0 body

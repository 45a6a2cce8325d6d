-- ===== src/Tests/MentionRuns.antt =====
-- A comment that mentions two people, one of them in capitals.
use kurultay.Base.{◌≡◌, refl, List, [], ◌∷◌, map, arith, All, any_of}
use kurultay.Mentions.{Text, codes, text_eq, parse_mentions, redact_mentions_of, match_classes}
use kurultay.Mentions.Unique.{firsts, IsOnce}
use kurultay.Mentions.Tokens.{IsUuid}
use kurultay.Mentions.Segments.{Segment, render, IsSegment, parse_mentions-render}
use kurultay.Mentions.Redacted.{renamed, redact_mentions_of_lem}

abbrev alice : Text
alice = codes "0198e2c0-9a1b-7f04-8c3d-2b5e7a9c1d53"

abbrev alice_in_capitals : Text
alice_in_capitals = codes "0198E2C0-9A1B-7F04-8C3D-2B5E7A9C1D53"

abbrev bob : Text
bob = codes "0198e2c0-9a1b-7f04-8c3d-2b5e7a9c1d54"

abbrev tokens : List Segment
tokens =
    record { before = codes "Hey "; name = codes "Ada"; id = alice }
    ∷ record { before = codes " and "; name = codes "Bob"; id = bob }
    ∷ record { before = codes ", "; name = codes "Ada L."; id = alice_in_capitals }
    ∷ []

tokens-IsSegment : All IsSegment tokens
unfolding match_classes
tokens-IsSegment = (
  (ground arith, (ground arith, ground arith), refl),
  (
    (ground arith, (ground arith, ground arith), refl),
    ((ground arith, (ground arith, ground arith), refl), tt),
  ),
)

parse_mentions-render_example :
    (parse_mentions (render tokens (codes "!")) ≡ firsts (map (λ s. s.id) tokens))
    × IsOnce (parse_mentions (render tokens (codes "!")))
    × ((id : Text)
        → any_of (text_eq id) (parse_mentions (render tokens (codes "!")))
          ≡ any_of (λ s. text_eq id s.id) tokens)
parse_mentions-render_example =
    parse_mentions-render tokens (codes "!") tokens-IsSegment (ground arith)

alice-IsUuid : IsUuid alice
unfolding match_classes
alice-IsUuid = refl

redact_mentions_of_lem_example :
    (redact_mentions_of (render tokens (codes "!")) alice (codes "Deleted user")
      ≡ render (map (renamed alice (codes "Deleted user")) tokens) (codes "!"))
    × (parse_mentions (redact_mentions_of (render tokens (codes "!")) alice (codes "Deleted user"))
        ≡ firsts (map (λ s. s.id) (map (renamed alice (codes "Deleted user")) tokens)))
redact_mentions_of_lem_example =
    redact_mentions_of_lem alice (codes "Deleted user") tokens (codes "!") alice-IsUuid
      (ground arith, ground arith) (ground arith) tokens-IsSegment (ground arith) (ground arith)

-- A dollar in the replacement is a pattern of its own: `$$` becomes `$`, `$&` the whole match.
dollar_run :
    redact_mentions_of
      (codes "Hi @[Ada](0198e2c0-9a1b-7f04-8c3d-2b5e7a9c1d53)!")
      alice
      (codes "$$&")
    ≡ codes "Hi @[$&](0198e2c0-9a1b-7f04-8c3d-2b5e7a9c1d53)!"
unfolding redact_mentions_of
dollar_run = refl

-- The name is gone, and both people are still addressed.
redacted_run :
    redact_mentions_of (codes "Hi @[Ada](0198E2C0-9A1B-7F04-8C3D-2B5E7A9C1D53)!") alice (codes "X")
    ≡ codes "Hi @[X](0198e2c0-9a1b-7f04-8c3d-2b5e7a9c1d53)!"
unfolding redact_mentions_of
redacted_run = refl

-- ===== src/Account/Redaction.antt =====
-- `AccountDeletionService.redactCommentMentions` and `redactActivityPayloads`: the name of the
-- person is taken out of the comments and of the activity entries that hold it.
use kurultay.Base.{
  ℕ, zero, suc, ◌&&◌, ◌||◌, Bool, true, false, Option, none, some, List, [], ◌∷◌, length, keep_if,
  take, last?, ltb, ◌==◌, if◌then◌else◌,
}
use kurultay.Ordering.Tables.{update_where}
use kurultay.Mentions.{Text, text_eq, redact_mentions_of}
use kurultay.Account.{Comment, ActivityRow, some_is, is_some, anonymous_user_name}

abbrev starts_with : Text → Text → Bool
starts_with [] text = true
starts_with (p ∷ ps) [] = false
starts_with (p ∷ ps) (c ∷ cs) = p == c && starts_with ps cs

-- `contains` in a query: a `LIKE` on both sides of the text, case included.
unfoldable pub includes : (part : Text) → Text → Bool
includes part [] = starts_with part []
includes part (c ∷ cs) = starts_with part (c ∷ cs) || includes part cs

abbrev pub is_after : Option ℕ → ℕ → Bool
is_after none id = true
is_after (some cursor) id = ltb cursor id

abbrev pub id_of : Option Comment → Option ℕ
id_of none = none
id_of (some c) = some c.id

module _ (user_id : Text) where
  abbrev pub redacted_body : Text → Text
  redacted_body body = redact_mentions_of body user_id anonymous_user_name

  abbrev pub is_on_page : Option ℕ → Comment → Bool
  is_on_page cursor c = includes user_id c.body && is_after cursor c.id

  -- The loop over a page: the table, and how many rows are rewritten.
  unfoldable pub redact_page : List Comment → List Comment → ℕ → List Comment × ℕ
  redact_page [] rows rewritten = (rows, rewritten)
  redact_page (comment ∷ page) rows rewritten =
      let changed = redacted_body comment.body in
      let same = text_eq changed comment.body in
      redact_page page
        (if same
          then rows
          else update_where (λ c. c.id == comment.id) (λ c. record c { body = changed }) rows)
        (if same then rewritten else suc rewritten)

  -- The loop over the pages, of at most `size` rows; `none` when the fuel has run out.
  unfoldable pub redact_comment_mentions :
      (size fuel : ℕ) (cursor : Option ℕ)
      → List Comment
      → (rewritten : ℕ) → Option (List Comment × ℕ)
  unfolding redact_page includes
  redact_comment_mentions size zero cursor rows rewritten = none
  redact_comment_mentions size (suc fuel) cursor rows rewritten =
      let page = take size (keep_if (is_on_page cursor) rows) in
      let done = redact_page page rows rewritten in
      let rest = redact_comment_mentions size fuel (id_of (last? page)) done.0 done.1 in
      if length page == 0
      then some (rows, rewritten)
      else if ltb (length page) size
      then some done
      else rest

-- `WHERE "payload"->>'targetUserId' = … AND "payload"->>'targetName' IS NOT NULL`
abbrev pub names_user : ℕ → ActivityRow → Bool
names_user user_id a = some_is a.target_user_id user_id && is_some a.target_name

unfoldable pub redact_activity_payloads : ℕ → List ActivityRow → List ActivityRow × ℕ
redact_activity_payloads user_id rows = (
  update_where (names_user user_id) (λ a. record a { target_name = some anonymous_user_name }) rows,
  length (keep_if (names_user user_id) rows),
)

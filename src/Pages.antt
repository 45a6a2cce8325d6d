-- ===== src/Pages.antt =====
-- common/pagination/cursor-page.ts, and the cursor reads of the services: a page is asked for by
-- the id of the last row that the client has.
pub mod Walk
use kurultay.Base.{
  ℕ, zero, suc, ◌+◌, Bool, true, false, Option, none, some, List, [], ◌∷◌, ◌++◌, map, length, take,
  last?, keep_if, ltb, if◌then◌else◌,
}

pub record CursorPage (Dto : Type 0) : Type 0 where
  pub items : List Dto
  pub next_cursor : Option ℕ
  pub has_more : Bool

-- `orderBy: { id: 'asc' }` with `id: { gt: cursor }`, or `'desc'` with `lt`.
pub data Direction : Type 0 where
  ascending descending : Direction

-- The row `id` comes after the row `cursor`.
unfoldable pub is_past : Direction → (cursor id : ℕ) → Bool
is_past ascending cursor id = ltb cursor id
is_past descending cursor id = ltb id cursor

module _ {Row : Type 0} (id_of : Row → ℕ) where
  abbrev pub id_of_last : Option Row → Option ℕ
  id_of_last none = none
  id_of_last (some row) = some (id_of row)

  unfoldable pub to_cursor_page : {Dto : Type 0} → List Row → ℕ → (Row → Dto) → CursorPage Dto
  to_cursor_page rows limit to_dto =
      let has_more = ltb limit (length rows) in
      let page = if has_more then take limit rows else rows in
      record {
        items = map to_dto page;
        next_cursor = if has_more then id_of_last (last? page) else none;
        has_more = has_more;
      }

module _ {Row : Type 0} (direction : Direction) (id_of : Row → ℕ) where
  abbrev pub is_after : Option ℕ → Row → Bool
  is_after none row = true
  is_after (some cursor) row = is_past direction cursor (id_of row)

  -- `findMany({ where, orderBy, take: limit + 1 })`, of `table` in the order of the read.
  abbrev pub read_page : List Row → Option ℕ → ℕ → List Row
  read_page table cursor limit = take (limit + 1) (keep_if (is_after cursor) table)

  -- The handler `list` of a service.
  unfoldable pub list_page : {Dto : Type 0} → List Row → Option ℕ → ℕ → (Row → Dto) → CursorPage Dto
  list_page table cursor limit to_dto =
      to_cursor_page id_of (read_page table cursor limit) limit to_dto

  -- A client that asks for pages until there is none, at most `fuel` of them.
  abbrev pub walk : {Dto : Type 0} → ℕ → List Row → Option ℕ → ℕ → (Row → Dto) → List Dto
  walk zero table cursor limit to_dto = []
  walk (suc fuel) table cursor limit to_dto =
      let page = list_page table cursor limit to_dto in
      let later = λ (c : ℕ). walk fuel table (some c) limit to_dto in
      page.items ++ elim page.next_cursor [ none ↦ [] | some c ↦ later c ]

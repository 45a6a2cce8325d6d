-- ===== src/Lib.antt =====
-- Verification of the core of Kurul: boards whose tasks and columns are ordered by fractional
-- positions, the memberships of the workspaces that own the boards and the invitations to them,
-- mentions, the erasure of accounts, the nightly cleanup, cursor pages, and the Trello import.
--
-- Files, by the part of the repository that they are about:
--   Base           shared helpers: tests on numbers, lists, Nest's exceptions, permutations
--   Ordering       apps/api/src/common/position: Number (the doubles, as an interface), Fractional
--                  (midpoint, needsRebalance, rebalancePositions), Slots (resolveMoveNeighbors,
--                  resolveCreateNeighbors, sliceSlot), Respread (the update lists of a respread),
--                  Chain, Tables and Placement (what the services' proofs share)
--   Store          the rows of boards, columns and tasks (apps/api/prisma/schema.prisma), activity
--                  entries and socket events; common/board-access.ts
--   Tasks          apps/api/src/task/task.service.ts and task-fields.ts
--   Columns        apps/api/src/board/column.service.ts, common/board-defaults.ts
--   Boards         apps/api/src/board/board.service.ts
--   Members        apps/api/src/workspace/workspace-member.service.ts, auth/better-auth-error.ts,
--                  apps/web/lib/member-permissions.ts
--   Integrity      what the foreign keys ask of tasks, columns and boards, over the handlers of Tasks,
--                  Columns and Boards
--   Checklists     apps/api/src/task/checklist.service.ts and task-events.service.ts
--   Pages          apps/api/src/common/pagination/cursor-page.ts and the services' cursor reads, as
--                  in comment/comment.service.ts and activity/activity.service.ts
--   Skips          apps/api/src/import/import-skip.ts
--   Mentions       apps/api/src/common/mentions
--   Account        apps/api/src/account/account-deletion.service.ts and anonymised-user.ts
--   Trello         apps/api/src/import/trello-import-planner.ts, trello-label-color.ts, and the types
--                  of trello-export.ts
--   Retention      apps/api/src/retention/cleanup.worker.ts
--   Invitations    apps/api/src/workspace/workspace-invitation.service.ts
--   Tests          runs of the handlers at which the theorems are applied
--
-- How the code is read. A handler is a function of the store with the handler's name; it answers
-- `ok` with the new store, or `err` with the exception, in which case the store is the old one,
-- as the transaction is rolled back and nothing is emitted. Requests that lock the same column
-- or board row run one after the other, so one call is one step; a move of a checklist takes no
-- lock, and the model is of moves that do not overlap. A row is read by the predicate that the
-- query has, workspace included. Ids are UUIDs and stand as numbers; the id that the database
-- generates for a new row is an argument, and so is the locale that LocaleService resolves.
-- `orderBy: [{ position: 'asc' }, { id: 'asc' }]` is an interface, `SortedReads`, with the
-- promise that it permutes the rows into order. Checklists are read by position alone
-- (`PositionReads`), which promises no more than a permutation.
--
-- Positions are doubles. The record `Number` has the operations that the code applies to them
-- and the facts of IEEE arithmetic that the ordering needs; a midpoint lies strictly between two
-- positions when both are where the spacing of the doubles is below half of `MIN_GAP`
-- (`is_fine`) and the code's own test `needsRebalance` finds the gap wide enough. `max_length`
-- bounds the multiples of `POSITION_GAP` to what an array can need. Tests/Grid has an instance.
--
-- The organization plugin (better-auth) is the record `OrganizationApi`: its calls, and the
-- writes that it documents for a call that succeeds.
-- `InvitationApi` is the same for invitations; what others write between the service's lookup and
-- the call is the argument `meanwhile`, and since no transaction spans the calls, these handlers
-- answer with the state that they leave, also where they throw.
--
-- `walk` asks for pages on fuel, and its theorem says how much is enough: a page with more to
-- come has a row at least. The redaction of comments has a round for each comment and one more,
-- which its theorem proves to be enough. A cleanup stops a table after `passes` batches of `size`
-- rows, as the code does after 1000 of 1000; its theorem is of tables that need no more. The other
-- loops are recursion on lists. `String.prototype.trim` and the reading of a date from a text are
-- arguments.
--
-- Texts with patterns in them are lists of code units (`Text`). What an erasure reads before its
-- transaction can be overtaken by others (`meanwhile`; `undisturbed` is nobody); the text of a UUID
-- and `trim().toLowerCase()` are arguments of it.
--
-- What the planner asks of the runtime (`trim`, `URL`, `Date`, the order of texts) is the record
-- `Runtime`, of which no law is assumed; the ids that `uuidv7` makes are the numbers of its calls.
--
-- Not modelled: relations in the answers (assignees, labels, checklists, attachment counts) and
-- timestamps, which no decision of the modelled code reads; the library code of Nest, Prisma and
-- better-auth; the other services, views and jobs of the repository.
pub mod Base
pub mod Ordering
pub mod Store
pub mod Tasks
pub mod Columns
pub mod Members
pub mod Boards
pub mod Integrity
pub mod Checklists
pub mod Skips
pub mod Pages
pub mod Tests
pub mod Mentions
pub mod Account
pub mod Trello
pub mod Retention
pub mod Invitations

-- ===== src/Tests.antt =====
-- Runs of the handlers on small boards, at which the theorems are applied.
mod Grid
mod Boards
mod TaskRuns
mod EditRuns
mod MentionRuns
mod ImportRuns
mod AccountRuns
mod RetentionRuns
mod InvitationRuns
mod ColumnRuns
mod SeedRuns
mod SlotRuns
mod MemberRuns
mod ReportRuns
mod BoardRuns
mod ChecklistRuns

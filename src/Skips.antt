-- ===== src/Skips.antt =====
-- import/import-skip.ts: what a Trello import left behind, gathered by scope and reason.
pub mod Counts
pub mod Order
use kurultay.Base.{
  ℕ, zero, suc, ◌+◌, ◌&&◌, ◌||◌, Bool, true, false, Option, none, some, String, List, [], ◌∷◌, ◌++◌,
  length, ltb, leb, ◌==◌, str_eq, if◌then◌else◌,
}

pub data SkipScope : Type 0 where
  list column card label checklist checklist_item attachment member comment : SkipScope

pub data SkipReason : Type 0 where
  out_of_scope archived unmappable unsupported_scheme malformed defaulted : SkipReason

-- `SCOPE_ORDER.indexOf`
unfoldable pub scope_index : SkipScope → ℕ
scope_index list = 0
scope_index column = 1
scope_index card = 2
scope_index label = 3
scope_index checklist = 4
scope_index checklist_item = 5
scope_index attachment = 6
scope_index member = 7
scope_index comment = 8

-- `REASON_ORDER.indexOf`
unfoldable pub reason_index : SkipReason → ℕ
reason_index out_of_scope = 0
reason_index archived = 1
reason_index unmappable = 2
reason_index unsupported_scheme = 3
reason_index malformed = 4
reason_index defaulted = 5

pub record SkipGroup : Type 0 where
  pub scope : SkipScope
  pub reason : SkipReason
  pub count : ℕ
  pub samples : List String

abbrev pub skip_sample_limit : ℕ
skip_sample_limit = 20

-- The group is the one of the key `${scope}/${reason}`.
abbrev pub has_key : SkipScope → SkipReason → SkipGroup → Bool
has_key scope reason g =
    scope_index g.scope == scope_index scope && reason_index g.reason == reason_index reason

-- The comparison of `toReport`.
abbrev pub goes_before : SkipGroup → SkipGroup → Bool
goes_before a b =
    ltb (scope_index a.scope) (scope_index b.scope)
    || (scope_index a.scope == scope_index b.scope
        && ltb (reason_index a.reason) (reason_index b.reason))

abbrev pub insert_group : SkipGroup → List SkipGroup → List SkipGroup
insert_group g [] = g ∷ []
insert_group g (x ∷ xs) =
    let rest = insert_group g xs in if goes_before g x then g ∷ x ∷ xs else x ∷ rest

-- `sort`, on groups of different keys.
abbrev pub sort_groups : List SkipGroup → List SkipGroup
sort_groups [] = []
sort_groups (g ∷ gs) = insert_group g (sort_groups gs)

-- `toReport`; the groups stand in the order in which the map got them.
unfoldable pub to_report : List SkipGroup → List SkipGroup
to_report groups = sort_groups groups

-- `trim` is `String.prototype.trim`.
module _ (trim : String → String) where
  abbrev pub trimmed : Option String → String
  trimmed none = ""
  trimmed (some sample) = trim sample

  -- The loop of `addMany`, which ends at the limit.
  unfoldable pub push_samples : List String → List (Option String) → List String
  push_samples samples [] = samples
  push_samples samples (x ∷ xs) =
      let skipped = push_samples samples xs in
      let pushed = push_samples (samples ++ trimmed x ∷ []) xs in
      if leb skip_sample_limit (length samples)
      then samples
      else (if str_eq (trimmed x) "" then skipped else pushed)

  abbrev pub grow : ℕ → List (Option String) → SkipGroup → SkipGroup
  grow count samples g = record g {
    count = g.count + count;
    samples = push_samples g.samples samples;
  }

  -- `groups.get(key)`, and a new group at the end of the map where there is none.
  unfoldable pub upsert :
      SkipScope → SkipReason → ℕ → List (Option String) → List SkipGroup → List SkipGroup
  upsert scope reason count samples [] =
      grow count samples (record { scope = scope; reason = reason; count = 0; samples = [] }) ∷ []
  upsert scope reason count samples (g ∷ gs) =
      let rest = upsert scope reason count samples gs in
      if has_key scope reason g then grow count samples g ∷ gs else g ∷ rest

  unfoldable pub add_many :
      List SkipGroup → SkipScope → SkipReason → ℕ → List (Option String) → List SkipGroup
  add_many groups scope reason zero samples = groups
  add_many groups scope reason (suc more) samples = upsert scope reason (suc more) samples groups

  unfoldable pub add : List SkipGroup → SkipScope → SkipReason → Option String → List SkipGroup
  add groups scope reason none = add_many groups scope reason 1 []
  add groups scope reason (some sample) = add_many groups scope reason 1 (some sample ∷ [])

-- A call of `addMany`; `add` is the one that counts one.
pub record Skip : Type 0 where
  pub scope : SkipScope
  pub reason : SkipReason
  pub count : ℕ
  pub samples : List (Option String)

module _ (trim : String → String) where
  -- The collector after a sequence of calls.
  abbrev pub collect_onto : List SkipGroup → List Skip → List SkipGroup
  collect_onto groups [] = groups
  collect_onto groups (k ∷ ks) =
      collect_onto (add_many trim groups k.scope k.reason k.count k.samples) ks

  abbrev pub collect : List Skip → List SkipGroup
  collect = collect_onto []

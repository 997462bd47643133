-- ===== src/Operations/Brackets.antt =====
-- The brackets that await their correcting amend (common/operations.py, `PendingBracket` and
-- `PendingBrackets`). A bracket's fields change where the execution client sets them; a timer is
-- its number.
use nautilus_ctrader_adapter.Prelude.{
  ℕ, ◌≡◌, Bool, Option, none, some, List, [], ◌∷◌, length, if◌then◌else◌,
}
use nautilus_ctrader_adapter.Prelude.Eq.{Text, Text_eq, text_eq}
use nautilus_ctrader_adapter.Prelude.Dict.{
  Dict, lookup, insert, erase, values, lookup-insert, lookup-erase,
}
use nautilus_ctrader_adapter.LegId.{Level}
use nautilus_ctrader_adapter.Records.{Levels}

pub record PendingBracket : Type 0 where
  pub entry_id : Text
  pub legs : Dict Level Text
  pub requested : Levels
  pub cancels : List Level
  pub modified : List Level
  pub correcting : Bool
  pub rounds : ℕ
  pub unanswered : Option Levels
  pub answer_lost : Bool
  pub rebuild_failures : ℕ
  pub retry : Option ℕ

abbrev pub PendingBrackets : Type 0
PendingBrackets = Dict Text PendingBracket

-- `stop_retry`, with the timer that it cancels.
pub stop_retry : PendingBracket → PendingBracket × Option ℕ
stop_retry bracket = (record bracket { retry = none }, bracket.retry)

pub add : PendingBracket → PendingBrackets → PendingBrackets
add bracket brackets = insert bracket.entry_id bracket brackets

-- `remove`, with the timer that it cancels.
pub remove : Text → PendingBrackets → PendingBrackets × Option ℕ
unfolding stop_retry
remove entry_id brackets = (
  erase entry_id brackets,
  elim (lookup entry_id brackets) [ none ↦ none | some bracket ↦ (stop_retry bracket).1 ],
)

pub by_entry : Text → PendingBrackets → Option PendingBracket
by_entry entry_id brackets = lookup entry_id brackets

abbrev level_of : Text → Dict Level Text → Option Level
level_of leg_id [] = none
level_of leg_id ((level, id) ∷ legs) =
    if text_eq id leg_id then some level else level_of leg_id legs

pub by_leg : Text → PendingBrackets → Option (PendingBracket × Level)
by_leg leg_id [] = none
by_leg leg_id ((entry_id, bracket) ∷ brackets) = elim (level_of leg_id bracket.legs) [
  | some level ↦ some (bracket, level)
  | none ↦ by_leg leg_id brackets
]

-- `__iter__` and `__len__`
abbrev pub all_brackets : PendingBrackets → List PendingBracket
all_brackets brackets = values brackets

abbrev pub bracket_count : PendingBrackets → ℕ
bracket_count brackets = length brackets

-- A bracket that was removed is found under its entry no longer, and every other one is as before.
pub by_entry-remove :
    (entry_id other : Text) (brackets : PendingBrackets)
    → by_entry other (remove entry_id brackets).0
      ≡ (if text_eq other entry_id then none else by_entry other brackets)
unfolding by_entry remove
by_entry-remove entry_id other brackets = lookup-erase entry_id other brackets

-- A bracket is found under its entry once it is added, and every other one is as before.
pub by_entry-add :
    (bracket : PendingBracket) (other : Text) (brackets : PendingBrackets)
    → by_entry other (add bracket brackets)
      ≡ (if text_eq other bracket.entry_id then some bracket else by_entry other brackets)
unfolding by_entry add
by_entry-add bracket other brackets = lookup-insert bracket.entry_id other bracket brackets

-- ===== src/Compatibility/Verdict.antt =====
-- One verdict of `CompatibilityEngine` (`ConstraintCheck` of backend/app/models/api.py).
use ai_repo.Prelude.{String, some, Bool, true, false, if◌then◌else◌, get_or}
use ai_repo.Runtime.{Builtins, zero_float, or_zero}
use ai_repo.Text.{◌⧺◌}
use ai_repo.Domain.{ComponentNode, Group, number}

pub data Status : Type 0 where
  pass fail warning unknown : Status

pub data Severity : Type 0 where
  info warning critical : Severity

pub record Check : Type 0 where
  pub id : String
  pub label : String
  pub status : Status
  pub severity : Severity

abbrev pub is_fail : Check → Bool
is_fail c = elim c.status [ Status.fail ↦ true | _ ↦ false ]

abbrev pub pass_or_fail : Bool → Status
pass_or_fail b = if b then Status.pass else Status.fail

abbrev pub critical_check : String → String → Bool → Check
critical_check id label ok = record {
  id = id;
  label = label;
  status = pass_or_fail ok;
  severity = Severity.critical;
}

-- `_unknown`
abbrev pub unknown_check : String → String → Check
unknown_check id label = record {
  id = id;
  label = label;
  status = Status.unknown;
  severity = Severity.warning;
}

-- The first loop of `check`.
abbrev pub missing_check : String → Check
missing_check id = critical_check ("missing:" ⧺ id) "Selected component exists in graph" false

module _ {F : Type 0} ⦃py : Builtins F⦄ where
  -- `number(…, 0)`: with a default the result is never `None`
  abbrev pub number_or_zero : ComponentNode F → Group → String → F
  number_or_zero n g key = get_or (number n g key (some zero_float)) zero_float

  -- `number(…, 0) or 0`
  abbrev pub count_or_zero : ComponentNode F → Group → String → F
  count_or_zero n g key = or_zero (number n g key (some zero_float))

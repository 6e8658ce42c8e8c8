-- ===== src/Observer/Report.antt =====
-- `report` of src/ssrfguard/_observer.py. An observer is what it does on each decision; the
-- records that reached it are kept in a log, newest last.
use ssrfguard.Base.{Option, none, some, List, [], ◌∷◌, ◌++◌, Result, ok, raise}
use ssrfguard.Errors.{Exception, torn_down}
use ssrfguard.Observer.Decision.{Decision}

-- A sink returns, raises an `Exception`, or raises another `BaseException`.
pub data Response : Type 0 where
  returns raises tears_down : Response

abbrev pub Observer : Type 0
Observer = Decision → Response

abbrev pub Log : Type 0
Log = List Decision

unfoldable pub report : Option Observer → Decision → Log → Result Exception (Unit {0}) × Log
report none d log = (ok tt, log)
report (some observer) d log = (
  elim (observer d) [ returns ↦ ok tt | raises ↦ ok tt | tears_down ↦ raise torn_down ],
  log ++ d ∷ [],
)

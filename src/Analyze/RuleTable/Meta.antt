-- ===== src/Analyze/RuleTable/Meta.antt =====
-- `Confidence` and `RuleMeta` of src/analyze.rs.
use Prim.Native.String.{String}
use sorseal.Analyze.Findings.{RuleId}

pub data Confidence : Type 0 where
  low medium high : Confidence

pub record RuleMeta : Type 0 where
  pub id : String
  pub name : String
  pub rule : RuleId
  pub severity : String
  pub confidence : Confidence
  pub short_desc : String
  pub description : String
  pub example : String
  pub fix : String

-- ===== src/ParameterSets/SpsVerdict.antt =====
-- What a sequence parameter set or a subset one is when it is kept.
use edge264_mvc.ParameterSets.SpsBounds.{Limits}
use edge264_mvc.ParameterSets.SpsParser.{Verdict, kept, malformed, unsupported}

abbrev Accepted : Verdict → Type 0
Accepted (kept s) = Limits s
Accepted malformed = Unit {0}
Accepted unsupported = Unit {0}

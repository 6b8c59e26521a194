-- ===== src/System/Sample.antt =====
-- A host for examples: what fails and what is printed are given, no timer fires.
use cfdev.Common.{String, false, Option, List}
use cfdev.Common.Int.{pos}
use cfdev.System.{System, Op, Fault}

abbrev pub host_with : (List Op → Op → Option Fault) → (List Op → Op → String) → System
host_with fault output = record {
  fault = fault;
  output = output;
  count = λ h o. pos 0;
  fired = λ h. false;
  quoted = λ t. t;
  number_error = λ t. t;
}

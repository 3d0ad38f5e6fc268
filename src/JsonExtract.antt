-- ===== src/JsonExtract.antt =====
-- json_extract/json_extract.go: reading a value of a JSON text along a path such as
-- `estimation.costsDetails[0].chain`. Value: the decoded values; Segment: the parts of a path;
-- Extract: the functions of the package; RoundTrip: paths that are printed from steps.
pub mod Value
pub mod Segment
pub mod Extract
pub mod RoundTrip
mod Tests

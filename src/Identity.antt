-- ===== src/Identity.antt =====
-- Pod identity (xstateful_set_utils.go): a pod's name carries its set and its ordinal, and the
-- labels repeat them. A name is read back by the regular expression `(.*)-([0-9]+)$`.
pub mod Decimal
pub mod Names
pub mod RoundTrip
pub mod Matching

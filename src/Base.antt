-- ===== src/Base.antt =====
-- What every module shares: library names passed on, Boolean tests on the native numbers, and the
-- children for integers, results, lists and ordered maps.
pub mod Tests
pub mod Int
pub mod Outcome
pub mod Lists
pub mod BTreeMap
pub mod Display
pub mod Chars

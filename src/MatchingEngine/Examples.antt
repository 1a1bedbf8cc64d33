-- ===== src/MatchingEngine/Examples.antt =====
-- A test of matching_engine.rs at a concrete answer.
use polymarket_watch_rust.Base.Tests.{refl, some, ◌≡◌}
use polymarket_watch_rust.MatchingEngine.{MatchingEngineMode, classify_http_status}

restarting_answer : (classify_http_status 425 (some 1000)).mode ≡ MatchingEngineMode.restarting
unfolding classify_http_status
restarting_answer = refl

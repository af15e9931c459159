-- ===== src/Tests/Keys.antt =====
-- EnsureManagementKey twice.
use qudata_agent.Tests.Agent.{keys}
use qudata_agent.Common.{refl, ap, none, ◌≡◌}
use qudata_agent.Keys.{KeyParser, ensure_management_key, pair_in}
use qudata_agent.Storage.{Files}
use qudata_agent.Common.Text.{codes}
use qudata_agent.Domain.{ok}
use qudata_agent.Keys.Kept.{ensure_management_key-again}

abbrev parser : KeyParser
parser = record { parse_private_key = λ t. none; parse_authorized_key = λ t. none }

abbrev kept : Files
kept = (ensure_management_key parser keys (codes "/k") (λ p. none)).1

ensured : (ensure_management_key parser keys (codes "/k") (λ p. none)).0 ≡ ok (pair_in (codes "/k"))
unfolding ensure_management_key
ensured = refl

ensure_management_key-again_example :
    ensure_management_key parser keys (codes "/k") kept ≡ (ok (pair_in (codes "/k")), kept)
ensure_management_key-again_example =
    ensure_management_key-again parser keys keys (codes "/k") (λ p. none) kept
      (pair_in (codes "/k")) (record { private = refl; public = refl })
      (ap (λ r. (r, kept)) ensured) refl refl

-- ===== src/Connection/Arbitration/Tests.antt =====
-- An attempt that belongs to another authority.
use mcp_adapter.Prelude.{true, none, some, [], ◌∷◌, ◌≡◌, refl}
use mcp_adapter.Connection.Arbitration.{
  Attempts, arbitrate_connection_attempt, Arbitrated, arbitrate_connection_attempt-Arbitrated,
}

abbrev pending : Attempts
pending = record {
  promises = ("docs", 1) ∷ [];
  authorities = ("docs", 2) ∷ [];
  attempts = ("docs", 3) ∷ [];
}

arbitrations :
    (arbitrate_connection_attempt (λ a. true) (λ c s. s) "docs" (some 9) pending
      ≡ (some 1, pending))
    × ((arbitrate_connection_attempt (λ a. true) (λ c s. s) "docs" none pending).1.attempts ≡ [])
unfolding arbitrate_connection_attempt
arbitrations = (refl, refl)

arbitrate_connection_attempt-Arbitrated_example :
    Arbitrated
      (λ a. true)
      (λ c s. s)
      "docs"
      none
      pending
      (arbitrate_connection_attempt (λ a. true) (λ c s. s) "docs" none pending)
arbitrate_connection_attempt-Arbitrated_example =
    arbitrate_connection_attempt-Arbitrated (λ a. true) (λ c s. s) "docs" none pending

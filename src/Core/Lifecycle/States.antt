-- ===== src/Core/Lifecycle/States.antt =====
-- The states and the transition tables. `index` is the place of a state in its constant, and stands
-- for the comparison of the texts by `includes`.
use comission_mgmt.Prelude.{ℕ, Bool, List, [], ◌∷◌, ◌==◌, any}

-- `PLACEMENT_STATES`.
pub data PlacementState : Type 0 where
  created contributors_assigned pending_approval active invoiced : PlacementState
  collected guarantee_active guarantee_expired closed : PlacementState
  refunded disputed clawback_triggered : PlacementState

abbrev pub placement_index : PlacementState → ℕ
placement_index created = 0
placement_index contributors_assigned = 1
placement_index pending_approval = 2
placement_index active = 3
placement_index invoiced = 4
placement_index collected = 5
placement_index guarantee_active = 6
placement_index guarantee_expired = 7
placement_index closed = 8
placement_index refunded = 9
placement_index disputed = 10
placement_index clawback_triggered = 11

-- `PLACEMENT_TRANSITIONS`.
abbrev pub placement_transitions : PlacementState → List PlacementState
placement_transitions created = contributors_assigned ∷ []
placement_transitions contributors_assigned = pending_approval ∷ []
placement_transitions pending_approval = active ∷ contributors_assigned ∷ []
placement_transitions active = invoiced ∷ refunded ∷ disputed ∷ []
placement_transitions invoiced = collected ∷ []
placement_transitions collected = guarantee_active ∷ closed ∷ []
placement_transitions guarantee_active = guarantee_expired ∷ clawback_triggered ∷ []
placement_transitions guarantee_expired = closed ∷ []
placement_transitions closed = []
placement_transitions refunded = closed ∷ []
placement_transitions disputed = active ∷ closed ∷ []
placement_transitions clawback_triggered = closed ∷ []

-- `canTransition`.
unfoldable pub can_transition : PlacementState → PlacementState → Bool
can_transition from to =
    any (λ s. placement_index s == placement_index to) (placement_transitions from)

-- `COMMISSION_RUN_STATES`.
pub data CommissionRunState : Type 0 where
  open_run approved exported : CommissionRunState

abbrev pub run_index : CommissionRunState → ℕ
run_index open_run = 0
run_index approved = 1
run_index exported = 2

-- `COMMISSION_RUN_TRANSITIONS`.
abbrev pub commission_run_transitions : CommissionRunState → List CommissionRunState
commission_run_transitions open_run = approved ∷ []
commission_run_transitions approved = exported ∷ []
commission_run_transitions exported = []

-- `canTransitionRun`.
unfoldable pub can_transition_run : CommissionRunState → CommissionRunState → Bool
can_transition_run from to =
    any (λ s. run_index s == run_index to) (commission_run_transitions from)

-- `GUARANTEE_STATES`.
pub data GuaranteeState : Type 0 where
  in_force expired_clean triggered : GuaranteeState

abbrev pub guarantee_index : GuaranteeState → ℕ
guarantee_index in_force = 0
guarantee_index expired_clean = 1
guarantee_index triggered = 2

-- `GUARANTEE_TRANSITIONS`; `in_force` is `Active`.
abbrev pub guarantee_transitions : GuaranteeState → List GuaranteeState
guarantee_transitions in_force = expired_clean ∷ triggered ∷ []
guarantee_transitions expired_clean = []
guarantee_transitions triggered = []

-- `canTransitionGuarantee`.
unfoldable pub can_transition_guarantee : GuaranteeState → GuaranteeState → Bool
can_transition_guarantee from to =
    any (λ s. guarantee_index s == guarantee_index to) (guarantee_transitions from)

-- ===== src/Core/Lifecycle/Traces.antt =====
-- What a placement went through: properties of every sequence of allowed transitions.
use comission_mgmt.Prelude.{
  ◌≡◌, ◌↔◌, refl, ◌⊎◌, inl, inr, Bool, true, false, List, [], ◌∷◌, arith, Any,
}
use comission_mgmt.Core.Lifecycle.States.{
  PlacementState, created, contributors_assigned, pending_approval, active, invoiced, collected,
  guarantee_active, guarantee_expired, closed, refunded, disputed, clawback_triggered,
  placement_transitions, can_transition,
}

abbrev head_or : PlacementState → List PlacementState → PlacementState
head_or s [] = s
head_or s (t ∷ ts) = t

-- Each state of the list follows the one before it, the first one the given state.
abbrev pub IsTrace : PlacementState → List PlacementState → Type 0
IsTrace s [] = Unit
IsTrace s (t ∷ ts) = (can_transition s t ≡ true) × IsTrace t ts

abbrev pub last_from : PlacementState → List PlacementState → PlacementState
last_from s [] = s
last_from s (t ∷ ts) = last_from t ts

-- A region that can be left through one state only.
abbrev IsGated : (PlacementState → Bool) → PlacementState → Type 0
IsGated region gate =
    (s t : PlacementState)
    → region s ≡ true
    → can_transition s t ≡ true
    → (region t ≡ true) ⊎ (t ≡ gate)

gated_visits :
    (region : PlacementState → Bool) (gate s : PlacementState) (ts : List PlacementState)
    → IsGated region gate
    → region s ≡ true
    → IsTrace s ts
    → region (last_from s ts) ≡ false
    → Any (λ t. t ≡ gate) ts
gated_visits region gate s [] g h tr out = cc
gated_visits region gate s (t ∷ ts) g h tr out = elim (g s t h tr.0) [
  | inl h' ↦ inr (gated_visits region gate t ts g h' tr.1 out)
  | inr e ↦ inl e
]

abbrev before_active : PlacementState → Bool
before_active created = true
before_active contributors_assigned = true
before_active pending_approval = true
before_active _ = false

abbrev before_invoiced : PlacementState → Bool
before_invoiced active = true
before_invoiced disputed = true
before_invoiced refunded = true
before_invoiced closed = true
before_invoiced s = before_active s

abbrev before_collected : PlacementState → Bool
before_collected invoiced = true
before_collected s = before_invoiced s

abbrev before_guarantee : PlacementState → Bool
before_guarantee collected = true
before_guarantee s = before_collected s

active-IsGated : IsGated before_active active
unfolding can_transition
active-IsGated s t h k = ground arith

invoiced-IsGated : IsGated before_invoiced invoiced
unfolding can_transition
invoiced-IsGated s t h k = ground arith

collected-IsGated : IsGated before_collected collected
unfolding can_transition
collected-IsGated s t h k = ground arith

guarantee-IsGated : IsGated before_guarantee guarantee_active
unfolding can_transition
guarantee-IsGated s t h k = ground arith

-- Every sequence of states from `created` that the transition table allows and that ends in an expired
-- guarantee or a triggered clawback goes through active, invoiced, collected and an active guarantee.
-- This is a fact of the table only.
pub guarantee_history :
    (ts : List PlacementState)
    → IsTrace created ts
    → (last_from created ts ≡ guarantee_expired) ⊎ (last_from created ts ≡ clawback_triggered)
    → Any (λ t. t ≡ active) ts
      × Any (λ t. t ≡ invoiced) ts
      × Any (λ t. t ≡ collected) ts
      × Any (λ t. t ≡ guarantee_active) ts
guarantee_history ts tr end = (
  gated_visits before_active active created ts active-IsGated refl tr (ground arith),
  gated_visits before_invoiced invoiced created ts invoiced-IsGated refl tr (ground arith),
  gated_visits before_collected collected created ts collected-IsGated refl tr (ground arith),
  gated_visits before_guarantee guarantee_active created ts guarantee-IsGated refl tr
      (ground arith),
)

-- Every sequence that the table allows from `created` to `closed` goes through active.
pub closed_history :
    (ts : List PlacementState)
    → IsTrace created ts
    → last_from created ts ≡ closed
    → Any (λ t. t ≡ active) ts
closed_history ts tr end =
    gated_visits before_active active created ts active-IsGated refl tr (ground arith)

-- A way to `closed`.
abbrev pub way_out : PlacementState → List PlacementState
way_out created = contributors_assigned ∷ pending_approval ∷ active ∷ refunded ∷ closed ∷ []
way_out contributors_assigned = pending_approval ∷ active ∷ refunded ∷ closed ∷ []
way_out pending_approval = active ∷ refunded ∷ closed ∷ []
way_out active = refunded ∷ closed ∷ []
way_out invoiced = collected ∷ closed ∷ []
way_out collected = closed ∷ []
way_out guarantee_active = guarantee_expired ∷ closed ∷ []
way_out guarantee_expired = closed ∷ []
way_out closed = []
way_out refunded = closed ∷ []
way_out disputed = closed ∷ []
way_out clawback_triggered = closed ∷ []

way_out_lem : (s : PlacementState) → IsTrace s (way_out s) × (last_from s (way_out s) ≡ closed)
unfolding can_transition
way_out_lem s = ground arith

-- The first state that the table allows next.
abbrev next_state : PlacementState → PlacementState
next_state s = head_or s (placement_transitions s)

stuck-closed : (s : PlacementState) → can_transition s (next_state s) ≡ false → s ≡ closed
unfolding can_transition
stuck-closed s h = ground arith

closed_stuck : (s t : PlacementState) → s ≡ closed → can_transition s t ≡ false
unfolding can_transition
closed_stuck s t e = ground arith

-- From every state there is a sequence of allowed transitions that ends in `closed`, and `closed`
-- is the one state with no way on.
pub closed_reachable :
    (s : PlacementState)
    → ((ts : List PlacementState) × IsTrace s ts × (last_from s ts ≡ closed))
      × (((t : PlacementState) → can_transition s t ≡ false) ↔ (s ≡ closed))
closed_reachable s = (
  (way_out s, (way_out_lem s).0, (way_out_lem s).1),
  (λ h. stuck-closed s (h (next_state s)), λ e t. closed_stuck s t e),
)

-- ===== src/Core/Explanation/Sentences.antt =====
-- `generateExplanation`.
use comission_mgmt.Prelude.{ℕ, Bool, true, ◌&&◌, Option, some, List, [], ◌∷◌, ◌++◌, if◌then◌else◌}
use comission_mgmt.Core.Number.{Number, ◌⊖◌, lt, max}
use comission_mgmt.Core.Explanation.Text.{
  Text, codes, Format, format_dollars, format_rate, format_split,
}

-- `ExplanationInput`.
pub record ExplanationInput {ℓ} (A : Type ℓ) : Type ℓ where
  pub commissionable_base : A
  pub split_pct : A
  pub credited_base : A
  pub applied_rate : A
  pub is_tiered_rate : Bool
  pub gross_commission : A
  pub desk_cost : A
  pub draw_deducted : A
  pub net_payable : A
  pub held_for_collection : Bool
  pub held_for_guarantee : Bool
  pub guarantee_expiry : Option Text
  pub plan_version_id : ℕ
  pub placement_id : ℕ

abbrev pub pending_and_held : Text
pending_and_held =
    codes "Payment is pending client collection and is also held inside a guarantee window."

abbrev pub pending_collection : Text
pending_collection = codes "Payment is pending client collection."

abbrev pub held_in_window : Text
held_in_window = codes "Payment is held inside a guarantee window."

-- An optional expiry date is used if it is not the empty text.
abbrev pub window_sentences : Bool → Option Text → List Text
window_sentences true (some (c ∷ cs)) =
    (codes "The placement is inside a 90-day guarantee window until " ++ ((c ∷ cs) ++ codes "."))
    ∷ []
window_sentences _ _ = []

-- `sentences.join(' ')`.
abbrev pub join : List Text → Text
join [] = []
join (s ∷ []) = s
join (s ∷ t ∷ ts) = s ++ (codes " " ++ join (t ∷ ts))

module _ {ℓ} {A : Type ℓ} ⦃n : Number A⦄ ⦃f : Format A⦄ where
  unfoldable pub credit_sentence : ExplanationInput A → Text
  unfolding format_split format_dollars
  credit_sentence i =
      codes "You received "
      ++ (format_split i.split_pct
          ++ (codes " credit on a "
              ++ (format_dollars i.commissionable_base
                  ++ (codes " placement. Your credited base was "
                      ++ (format_dollars i.credited_base ++ codes ".")))))

  unfoldable pub desk_sentences : ExplanationInput A → List Text
  unfolding format_dollars
  desk_sentences i =
      if lt n.nought i.desk_cost
      then (codes "A desk cost of "
          ++ (format_dollars i.desk_cost
              ++ (codes " was deducted, leaving a commissionable base of "
                  ++ (format_dollars (max n.nought (i.credited_base ⊖ i.desk_cost)) ++ codes "."))))
        ∷ []
      else []

  unfoldable pub rate_sentence : ExplanationInput A → Text
  unfolding format_rate format_dollars
  rate_sentence i =
      codes "Your "
      ++ ((if i.is_tiered_rate then codes "tier rate" else codes "base rate")
          ++ (codes " is "
              ++ (format_rate i.applied_rate
                  ++ (codes ", producing "
                      ++ (format_dollars i.gross_commission ++ codes " gross commission.")))))

  unfoldable pub draw_sentences : ExplanationInput A → List Text
  unfolding format_dollars
  draw_sentences i =
      if lt n.nought i.draw_deducted
      then (codes "A draw recovery of "
          ++ (format_dollars i.draw_deducted
              ++ (codes " was applied, reducing your net payable to "
                  ++ (format_dollars i.net_payable ++ codes "."))))
        ∷ []
      else []

  unfoldable pub hold_sentence : ExplanationInput A → Text
  unfolding format_dollars
  hold_sentence i =
      if i.held_for_collection && i.held_for_guarantee
      then pending_and_held
      else if i.held_for_collection
      then pending_collection
      else if i.held_for_guarantee
      then held_in_window
      else codes "Your net payable is " ++ (format_dollars i.net_payable ++ codes ".")

  unfoldable pub generate_explanation : ExplanationInput A → Text
  unfolding credit_sentence desk_sentences rate_sentence draw_sentences hold_sentence
  generate_explanation i = join (
      (credit_sentence i ∷ desk_sentences i)
      ++ ((rate_sentence i ∷ draw_sentences i)
          ++ (hold_sentence i ∷ window_sentences i.held_for_guarantee i.guarantee_expiry)))

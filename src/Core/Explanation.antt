-- ===== src/Core/Explanation.antt =====
-- packages/core/explanation-engine.ts: the sentences that explain a commission. A text is the list
-- of its code points.
pub mod Text
pub mod Sentences
pub mod Grouping

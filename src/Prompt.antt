-- ===== src/Prompt.antt =====
-- Durable prompt changes: the types that crates/chudbot-bot/src/turns.rs, which writes a system
-- turn for each part of the prompt that changed, shares with
-- crates/chudbot-storage-sqlx/src/snapshots.rs, which reads the prompt back from the stored turns.
-- A `Uuid` is taken by its text.
pub mod Changes
pub mod Markers
pub mod Maps
pub mod Rows
pub mod Shown
pub mod After
pub mod Reduced
pub mod Laws
pub mod Tests
use chudbot.Common.{
  Bool, true, false, not, ◌≡◌, ◌==◌, leb, List, Option, some, lookup, Text, text_key,
}
use chudbot.Agent.{ℤ, Values, leb_ℤ}

-- The range of an `i32`.
unfoldable pub is_i32 : ℤ → Bool
is_i32 (ℤ.pos a) = leb a 2147483647
is_i32 (ℤ.negsuc a) = leb a 2147483647

-- What prompt turns need of `serde_json::Value` beyond `Values`.
pub record Json (V : Type 0) : Type 0 where
  pub values : Values V
  pub as_str : V → Option Text
  pub as_i64 : V → Option ℤ
  pub as_object : V → Option (List (Text × V))
  pub as_str-string : (t : Text) → as_str (values.string t) ≡ some t
  pub as_i64-number : (n : ℤ) → is_i32 n ≡ true → as_i64 (values.number n) ≡ some n
  pub as_object-get :
      (v : V) (m : List (Text × V)) (key : Text)
      → as_object v ≡ some m
      → values.get v key ≡ lookup key m

pub record AgentInstructionPartSnapshot : Type 0 where
  pub key : Text
  pub ordinal : ℤ
  pub text : Text

pub data AgentInstructionSnapshot : Type 0 where
  legacy_text : Text → AgentInstructionSnapshot
  parts : List AgentInstructionPartSnapshot → AgentInstructionSnapshot

pub record RenderedAgentInstructionPart : Type 0 where
  pub key : Text
  pub ordinal : ℤ
  pub text : Text
  pub update_text : Option Text

pub data StoredAgentInstructionState : Type 0 where
  none : StoredAgentInstructionState
  legacy_text : Text → StoredAgentInstructionState
  labeled_parts : List AgentInstructionPartSnapshot → StoredAgentInstructionState

unfoldable pub eq_ℤ : ℤ → ℤ → Bool
eq_ℤ (ℤ.pos a) (ℤ.pos b) = a == b
eq_ℤ (ℤ.negsuc a) (ℤ.negsuc b) = a == b
eq_ℤ _ _ = false

unfoldable pub lt_ℤ : ℤ → ℤ → Bool
unfolding leb_ℤ
lt_ℤ a b = not (leb_ℤ b a)

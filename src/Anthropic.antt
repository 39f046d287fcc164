-- ===== src/Anthropic.antt =====
-- The Anthropic provider, crates/chudbot-anthropic/src/llm.rs: the JSON that it builds and reads.
pub mod Content
pub mod Messages
use chudbot.Common.{ℕ, Text, List, Option, some, ◌≡◌, Bool}
use chudbot.Prompt.{Json}

-- What the provider needs of `serde_json::Value` beyond `Json`. `to_string` is `serde_json::to_string`.
pub record Wire (V : Type 0) : Type 0 where
  pub json : Json V
  pub array : List V → V
  pub as_array : V → Option (List V)
  pub to_string : V → Text
  pub as_array-array : (items : List V) → as_array (array items) ≡ some items

pub data AnthropicError : Type 0 where
  transport : Text → AnthropicError
  api : ℕ → Text → AnthropicError
  decode reference : Text → AnthropicError

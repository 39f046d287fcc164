-- ===== src/Anthropic/Content.antt =====
-- The content of one message in crates/chudbot-anthropic/src/llm.rs: blocks of a transcript turn become blocks
-- of the Messages API.
use chudbot.Common.{
  true, none, some, List, [], ◌∷◌, ◌++◌, if◌then◌else◌, is_empty, Text, codes, text_eq, starts_with,
  Result, ok, err, ◌>>=◌,
}
use chudbot.Model.{TranscriptTurn, ContentBlock, ClientToolResult, ClientToolResultContent}
use chudbot.Model.Images.{
  ImageEncoding, MediaAccess, ModelImageReference, ImageReferenceError, resolve_image_reference,
}
use chudbot.Anthropic.{Wire, AnthropicError}

-- `show` is the `Display` of an `ImageReferenceError`.
pub record Rendering (V M : Type 0) : Type 0 where
  pub wire : Wire V
  pub media : MediaAccess M
  pub show : ImageReferenceError → Text
  pub provider : Text
  pub image_encoding : ImageEncoding

module _ {V M : Type 0} (rendering : Rendering V M) where
  abbrev pub str : Text → V
  str text = rendering.wire.json.values.string text

  abbrev pub obj : List (Text × V) → V
  obj fields = rendering.wire.json.values.object fields

  unfoldable pub continuation_blocks : List (ContentBlock V M) → List V
  unfolding text_eq
  continuation_blocks [] = []
  continuation_blocks (ContentBlock.continuation continuation ∷ blocks) =
      let rest = continuation_blocks blocks in
      if text_eq continuation.provider rendering.provider
      then (elim (rendering.wire.as_array continuation.data_value) [
        | some items ↦ items ++ rest
        | none ↦ continuation.data_value ∷ rest
      ])
      else rest
  continuation_blocks (ContentBlock.text _ ∷ blocks) = continuation_blocks blocks
  continuation_blocks (ContentBlock.media _ ∷ blocks) = continuation_blocks blocks
  continuation_blocks (ContentBlock.client_tool_call _ ∷ blocks) = continuation_blocks blocks
  continuation_blocks (ContentBlock.client_tool_result _ ∷ blocks) = continuation_blocks blocks

  unfoldable pub provider_continuation_content : TranscriptTurn V M → List V
  unfolding continuation_blocks
  provider_continuation_content turn = continuation_blocks turn.blocks

  unfoldable pub media_source : M → Result AnthropicError V
  unfolding starts_with resolve_image_reference
  media_source media =
      let mime_type = rendering.media.mime_type media in
      if starts_with (codes "image/") mime_type
      then (elim (resolve_image_reference rendering.media media rendering.image_encoding) [
        | err error ↦ err (AnthropicError.reference (rendering.show error))
        | ok reference ↦ elim reference [
          | ModelImageReference.embedded_base64 image ↦ ok (
              obj (
                (codes "type", str (codes "base64"))
                ∷ (codes "media_type", str image.mime_type)
                ∷ (codes "data", str image.base64)
                ∷ []))
          | ModelImageReference.public_url url ↦
              ok (obj ((codes "type", str (codes "url")) ∷ (codes "url", str url) ∷ []))
        ]
      ])
      else err (
          AnthropicError.reference (
            codes "media `"
            ++ rendering.media.uri media
            ++ codes "` has MIME type `"
            ++ mime_type
            ++ codes "`, but Anthropic Messages accepts image media here"))

  unfoldable pub client_tool_result_as_string : ClientToolResult V → Text
  client_tool_result_as_string result = elim result.content [
    | ClientToolResultContent.json value ↦ rendering.wire.to_string value
    | ClientToolResultContent.text t ↦ t
  ]

  unfoldable pub tool_result_block : ClientToolResult V → V
  unfolding client_tool_result_as_string
  tool_result_block result = obj (
      (codes "type", str (codes "tool_result"))
      ∷ (codes "tool_use_id", str result.tool_use_id)
      ∷ (codes "content", str (client_tool_result_as_string result))
      ∷ (if result.is_error
          then (codes "is_error", rendering.wire.json.values.bool true) ∷ []
          else []))

  -- The loop over the blocks of a turn without a continuation of this provider.
  unfoldable pub block_contents : List (ContentBlock V M) → Result AnthropicError (List V)
  unfolding media_source tool_result_block
  block_contents [] = ok []
  block_contents (ContentBlock.text text ∷ blocks) = block_contents blocks >>= λ rest. ok (
      if is_empty text
      then rest
      else obj ((codes "type", str (codes "text")) ∷ (codes "text", str text) ∷ []) ∷ rest)
  block_contents (ContentBlock.media media ∷ blocks) = media_source media >>= λ source.
      block_contents blocks >>= λ rest.
      ok (obj ((codes "type", str (codes "image")) ∷ (codes "source", source) ∷ []) ∷ rest)
  block_contents (ContentBlock.client_tool_call call ∷ blocks) = block_contents blocks >>= λ rest.
      ok (
        obj (
          (codes "type", str (codes "tool_use"))
          ∷ (codes "id", str call.id)
          ∷ (codes "name", str call.name)
          ∷ (codes "input", call.input)
          ∷ [])
        ∷ rest)
  block_contents (ContentBlock.client_tool_result result ∷ blocks) =
      block_contents blocks >>= λ rest. ok (tool_result_block result ∷ rest)
  block_contents (ContentBlock.continuation _ ∷ blocks) = block_contents blocks

  unfoldable pub anthropic_content_for_turn : TranscriptTurn V M → Result AnthropicError (List V)
  unfolding provider_continuation_content block_contents
  anthropic_content_for_turn turn =
      let content = provider_continuation_content turn in
      if is_empty content then block_contents turn.blocks else ok content

-- ===== src/Model/Images.antt =====
-- Image inputs in crates/chudbot-api/src/llm.rs: how a media handle becomes a reference that a provider
-- accepts. The handle's `public_url` and `embedded_base64`, which load and sign, are parameters.
use chudbot.Common.{Text, Result, ok, err}

pub data ImageEncoding : Type 0 where
  public_url embedded_base64 disabled : ImageEncoding

pub record EmbeddedMediaBase64 : Type 0 where
  pub mime_type : Text
  pub base64 : Text

-- What the code reads of a `MediaRef`, with its errors as texts.
pub record MediaAccess (M : Type 0) : Type 0 where
  pub uri : M → Text
  pub mime_type : M → Text
  pub public_url : M → Result Text Text
  pub embedded_base64 : M → Result Text EmbeddedMediaBase64

pub data ModelImageReference : Type 0 where
  public_url : Text → ModelImageReference
  embedded_base64 : EmbeddedMediaBase64 → ModelImageReference

-- `embedded_base64_unavailable uri encode_error public_error` and
-- `public_url_unavailable uri public_error encode_error`.
pub data ImageReferenceError : Type 0 where
  disabled : Text → ImageReferenceError
  embedded_base64_unavailable public_url_unavailable : Text → Text → Text → ImageReferenceError

unfoldable pub resolve_image_reference :
    {M : Type 0}
    → MediaAccess M
    → M
    → ImageEncoding
    → Result ImageReferenceError ModelImageReference
resolve_image_reference access media ImageEncoding.embedded_base64 =
    elim (access.embedded_base64 media) [
      | ok embedded ↦ ok (ModelImageReference.embedded_base64 embedded)
      | err encode_error ↦ elim (access.public_url media) [
        | ok url ↦ ok (ModelImageReference.public_url url)
        | err public_error ↦ err (
            ImageReferenceError.embedded_base64_unavailable (access.uri media) encode_error
              public_error)
      ]
    ]
resolve_image_reference access media ImageEncoding.public_url = elim (access.public_url media) [
  | ok url ↦ ok (ModelImageReference.public_url url)
  | err public_error ↦ elim (access.embedded_base64 media) [
    | ok embedded ↦ ok (ModelImageReference.embedded_base64 embedded)
    | err encode_error ↦
        err
          (ImageReferenceError.public_url_unavailable (access.uri media) public_error encode_error)
  ]
]
resolve_image_reference access media ImageEncoding.disabled =
    err (ImageReferenceError.disabled (access.uri media))

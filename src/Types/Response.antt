-- ===== src/Types/Response.antt =====
-- apps/gateway/src/types.rs: the response of a provider. The tool calls and the provider's own body,
-- JSON that is passed through, are left out.
use aegis_ai_gateway.Prelude.{Option}
use aegis_ai_gateway.Text.{Text}
use aegis_ai_gateway.Types.{TokenUsage}

pub record NormalizedResponse : Type 0 where
  pub id : Text
  pub model : Text
  pub content : Text
  pub finish_reason : Option Text
  pub usage : TokenUsage

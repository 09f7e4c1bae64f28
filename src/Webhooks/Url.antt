-- ===== src/Webhooks/Url.antt =====
-- Webhook addresses: `isMockGameWebhook` and `resolveMockGameWebhookUrl` of
-- packages/shared/src/mock-webhook.ts, and `resolveWebhookUrl` of apps/worker/src/jobs/webhook-delivery.ts.
use xgamefi.Prelude.{
  ◌-◌, Bool, [], ◌∷◌, ◌++◌, Text, codes, length, leb, drop, ◌&&◌, text_eq, if◌then◌else◌, ◌==◌,
}
use xgamefi.World.{External}

abbrev pub mock_path : Text
mock_path = codes "/api/mock-game/webhook"

-- `s.endsWith(t)`
unfoldable pub ends_with : Text → Text → Bool
ends_with s t = leb (length t) (length s) && text_eq (drop (length s - length t) s) t

unfoldable pub is_mock_game_webhook : Text → Bool
is_mock_game_webhook url = ends_with url mock_path

-- `.replace(/\/$/, "")`
unfoldable pub strip_slash : Text → Text
strip_slash [] = []
strip_slash (c ∷ []) = if c == b'/' then [] else c ∷ []
strip_slash (c ∷ d ∷ s) = c ∷ strip_slash (d ∷ s)

-- `resolveMockGameWebhookUrl`, and `resolveWebhookUrl` of the worker.
unfoldable pub resolve_webhook_url : External → Text → Text
resolve_webhook_url x url =
    if ends_with url mock_path then strip_slash x.app_base_url ++ mock_path else url

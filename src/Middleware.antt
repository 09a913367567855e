-- ===== src/Middleware.antt =====
-- middleware/correlationMiddleware.go: the id that a request is traced by, and what is logged of it.
-- `uuid` is what GenerateUUID gives.
use r2_notify_server.Prelude.{String, none, ◌==◌, if◌then◌else◌}
use r2_notify_server.Models.{Time}
use r2_notify_server.Logger.{Zap, Logger, LogPayload, Output, log_info}

-- The request's headers X-Correlation-ID, X-User-ID and X-App-ID.
pub record Headers : Type 0 where
  pub correlation_id : String
  pub user_id : String
  pub app_id : String

abbrev pub traced : String → Headers → String → LogPayload
traced message headers id = record {
  component = "Correlation Middleware";
  operation = "CorrelationIDMiddleware";
  message = message;
  correlation_id = id;
  user_id = headers.user_id;
  app_id = headers.app_id;
  error = none;
}

-- What is set under "correlationId" in the context of the request, and the log.
unfoldable pub correlation_id_middleware :
    Zap → Logger → Time → Time → String → Headers → Output → String × Output
correlation_id_middleware zap logger first second uuid headers out =
    let out' =
      log_info zap logger first
        (traced "Extracting X-Correlation-ID from request header" headers headers.correlation_id)
        out in
    if headers.correlation_id == ""
    then (
      uuid,
      log_info zap logger second
          (traced "X-Correlation-ID is missing, generated new correlation ID" headers uuid) out',
    )
    else (headers.correlation_id, out')

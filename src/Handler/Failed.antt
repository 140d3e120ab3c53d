-- ===== src/Handler/Failed.antt =====
-- handler.go, `sseSink`: a stream whose connection is lost.
use openresponses.Response.{Response}
use openresponses.Handler.SseSink.{SseSink}

-- ===== src/Http/RateLimit.antt =====
-- http.go: what the failures that are counted for a client mean for logins that run at once, with
-- those of other clients between them.

-- ===== src/Tokens/Tickets.antt =====
-- apps/server/src/auth/tokens.ts: a playback ticket is good for its file, and for no other.

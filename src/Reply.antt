-- ===== src/Reply.antt =====
-- internal/command/a.go: the interface `Writer`. What a command writes to the client is the list of
-- its calls, in order.
pub mod Framing
use redka.Base.{ℕ, ℤ, String}

pub data Reply : Type 0 where
  -- `WriteError`, `WriteString`, `WriteBulk` and `WriteBulkString`, `WriteAny` of a string
  error_reply : String → Reply
  string_reply : String → Reply
  bulk : String → Reply
  any_reply : String → Reply
  -- `WriteInt`, `WriteArray` (the header alone), `WriteNull`
  int_reply : ℤ → Reply
  array : ℕ → Reply
  null : Reply

-- ===== src/Contract/Permissions.antt =====
-- packages/contract/src/permissions.ts: the access modes, the operations, and the matrix.
use mathlib.Core.Bool.{Bool, true, false}

pub data AccessMode : Type 0 where
  full stream none : AccessMode

pub data Operation : Type 0 where
  list stream download print upload : Operation

abbrev pub can : AccessMode → Operation → Bool
can AccessMode.full op = true
can AccessMode.stream Operation.list = true
can AccessMode.stream Operation.stream = true
can AccessMode.stream _ = false
can AccessMode.none op = false

-- ===== src/Errors.antt =====
-- Go's errors and gRPC's statuses. An error keeps its format and its operands unprinted.
use rea_time_chat_g_rpc.Base.{Text, Option}

pub data Error : Type 0 where
  -- `errors.New(…)`, and the errors of the libraries
  message : Text → Error
  -- `fmt.Errorf` of a format and its operand
  formatted : Text → Text → Error
  -- `fmt.Errorf("…: %w", err)`
  wrapped : Text → Error → Error
  -- `io.EOF`, `mongo.ErrNoDocuments`, and what `mongo.IsDuplicateKeyError` recognises
  eof no_documents duplicate_key : Error

-- `google.golang.org/grpc/codes`
pub data Code : Type 0 where
  not_found permission_denied resource_exhausted unimplemented internal unauthenticated : Code

-- `status.Errorf` of a code, a format and the error that it prints, if any.
pub record Status : Type 0 where
  pub code : Code
  pub format : Text
  pub cause : Option Error

-- ===== src/Driver/Status.antt =====
-- The errors that the CSI services return: a gRPC status with its code, or an error without one.
-- The texts of messages are left out.
pub data Code : Type 0 where
  invalid_argument not_found already_exists internal : Code
  unauthenticated failed_precondition unimplemented : Code

pub data DriverError : Type 0 where
  status : Code → DriverError
  unclassified : DriverError

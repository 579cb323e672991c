-- ===== src/Prelude/Errors.antt =====
-- The error numbers of kernel/kerrno.h, and what an `int rc` stands for: 0 or a negative errno.
pub data Errno : Type 0 where
  noent inval nomem fault pipe notsup : Errno

pub data Status : Type 0 where
  ok : Status
  err : Errno → Status

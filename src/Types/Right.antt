-- ===== src/Types/Right.antt =====
-- types.rs, the constants of `Rights`.
use sotfs.Base.{ℕ}

abbrev pub read : ℕ
read = 1

abbrev pub write : ℕ
write = 2

abbrev pub execute : ℕ
execute = 4

abbrev pub grant : ℕ
grant = 8

abbrev pub revoke : ℕ
revoke = 16

abbrev pub all : ℕ
all = 0x1F

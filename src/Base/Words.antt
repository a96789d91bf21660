-- ===== src/Base/Words.antt =====
-- Machine words: `unsigned long`, `size_t` and `uint64_t` are numbers below 2 ^ 64.
use Prim.Native.Nat.{ℕ, ◌+◌, ◌-◌, ◌*◌, ◌/◌, ◌%◌, ◌^◌}

abbrev pub u64 : ℕ
u64 = 2 ^ 64

abbrev pub add64 : ℕ → ℕ → ℕ
add64 a b = (a + b) % u64

abbrev pub sub64 : ℕ → ℕ → ℕ
sub64 a b = (a + u64 - b) % u64

abbrev pub inc64 : ℕ → ℕ
inc64 a = (a + 1) % u64

abbrev pub dec64 : ℕ → ℕ
dec64 a = (a + (u64 - 1)) % u64

-- `a << k` and `a >> k`
abbrev pub shl64 : ℕ → ℕ → ℕ
shl64 a k = (a * 2 ^ k) % u64

abbrev pub shr64 : ℕ → ℕ → ℕ
shr64 a k = a / 2 ^ k

-- `~a`
abbrev pub not64 : ℕ → ℕ
not64 a = u64 - 1 - a

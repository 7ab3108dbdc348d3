-- ===== src/Proto/Message/Checksum.antt =====
-- The checksum as an unwrapped sum.
use adb_client.Base.{ℕ, ◌+◌, ◌%◌, ◌^◌, ◌≡◌, ◌∙◌, arith, [], ◌∷◌}
use adb_client.Base.Bytes.{Bytes}
use adb_client.Base.Words.{IsU32}
use adb_client.Proto.Message.{checksum_from, checksum}

abbrev pub sum : Bytes → ℕ
sum [] = 0
sum (b ∷ bs) = b + sum bs

checksum_from-sum :
    (acc : ℕ) (bs : Bytes) → IsU32 acc → checksum_from acc bs ≡ (acc + sum bs) % 2 ^ 32
unfolding checksum_from
checksum_from-sum acc [] h = omega arith
checksum_from-sum acc (b ∷ bs) h =
    checksum_from-sum ((acc + b) % 2 ^ 32) bs (omega arith) ∙ omega arith

pub checksum-sum : (bs : Bytes) → checksum bs ≡ sum bs % 2 ^ 32
unfolding checksum
checksum-sum bs = checksum_from-sum 0 bs (omega arith) ∙ omega arith

pub checksum-IsU32 : (bs : Bytes) → IsU32 (checksum bs)
checksum-IsU32 bs = omega (arith, checksum-sum bs)

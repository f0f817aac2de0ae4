-- ===== src/Hash.antt =====
-- The hash functions of common/hash_ring.cpp, on 64-bit words.
use Prim.Native.Nat.{bit_xor}
use distributed_kv_store.Prelude.{ℕ, ◌*◌, ◌/◌, ◌%◌, ◌^◌, [], ◌∷◌, Bytes}

abbrev pub u64 : ℕ → ℕ
u64 n = n % 2 ^ 64

-- `k ^= k >> 33`
unfoldable pub xor_shift : ℕ → ℕ
xor_shift k = bit_xor k (k / 2 ^ 33)

unfoldable pub fmix64 : ℕ → ℕ
unfolding xor_shift
fmix64 k = xor_shift (u64 (xor_shift (u64 (xor_shift k * 0xff51afd7ed558ccd)) * 0xc4ceb9fe1a85ec53))

-- The loop over the bytes.
unfoldable pub fnv_from : ℕ → Bytes → ℕ
fnv_from hash [] = hash
fnv_from hash (c ∷ s) = fnv_from (u64 (bit_xor hash c * 1099511628211)) s

unfoldable pub fnv1a_hash : Bytes → ℕ
unfolding fmix64 fnv_from
fnv1a_hash s = fmix64 (fnv_from 14695981039346656037 s)

unfoldable pub modulo_hash_node : Bytes → ℕ → ℕ
unfolding fnv1a_hash
modulo_hash_node key num_nodes = fnv1a_hash key % num_nodes

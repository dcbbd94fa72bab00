-- ===== src/Domain/Node.antt =====
-- crates/domain/src/node: ids that name the node that minted them, in their 16 high bits.
use democrachat.Prelude.{ℕ, ◌+◌, ◌*◌, ◌/◌, ◌%◌, ◌^◌, ◌<◌, ◌≡◌, arith}
use democrachat.Prelude.Std.{u64_mod}

abbrev pub sequence_bits : ℕ
sequence_bits = 48

-- The mask of the low 48 bits is `2 ^ 48 - 1`; `& mask` is the remainder by `2 ^ 48`.
abbrev pub sequence_mod : ℕ
sequence_mod = 281474976710656

-- The shifted node and the masked sequence share no bit, so `|` is their sum.
unfoldable pub compose_id : ℕ → ℕ → ℕ
compose_id node sequence = node * sequence_mod % u64_mod + sequence % sequence_mod

unfoldable pub origin_node : ℕ → ℕ
origin_node id = id / sequence_mod % 65536

unfoldable pub local_sequence : ℕ → ℕ
local_sequence id = id % sequence_mod

-- The id composed of a 16-bit node and a 48-bit sequence fits 64 bits and gives back the node and
-- the sequence.
pub compose_id_parts :
    (node sequence : ℕ)
    → node < 65536
    → sequence < 2 ^ 48
    → (compose_id node sequence < 2 ^ 64)
      × (origin_node (compose_id node sequence) ≡ node)
      × (local_sequence (compose_id node sequence) ≡ sequence)
unfolding compose_id origin_node local_sequence
compose_id_parts node sequence h k = omega arith

-- Ids that two 16-bit nodes mint from 48-bit sequences are equal only if node and sequence are.
pub compose_id_injective :
    (n m i j : ℕ)
    → n < 65536
    → m < 65536
    → i < 2 ^ 48
    → j < 2 ^ 48
    → compose_id n i ≡ compose_id m j
    → (n ≡ m) × (i ≡ j)
unfolding compose_id
compose_id_injective n m i j hn hm hi hj e = omega arith

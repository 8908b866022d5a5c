-- ===== src/Ario/Memory.antt =====
-- src/ario/memory.cpp: a pool of equal blocks, and the blocks that are handed out. A pointer is an
-- address, with 0 for the null pointer, and an allocator is known by a number. The back of the vector
-- `available_blocks_` is the head of a list.
pub mod Valid
pub mod Owned
mod Tests
use nexuslb.Prelude.{
  ℕ, zero, suc, ◌+◌, ◌-◌, ◌*◌, ◌/◌, ◌%◌, ◌^◌, Bool, true, false, not, Option, none, some, List, [],
  ◌∷◌, ◌==◌, ltb, leb, get_elem?, set, if◌then◌else◌, Outcome, ok, fault, out_of_range,
  invalid_argument, bad_alloc, undefined, require, or_fault, ◌>>=◌, ◌>>◌,
}

pub record Allocator : Type 0 where
  pub id : ℕ
  pub pool_bits : ℕ
  pub block_bits : ℕ
  pub pool_size : ℕ
  pub block_size : ℕ
  pub blocks : ℕ
  pub rdma_lkey : ℕ
  pub memory : ℕ
  pub available_blocks : List ℕ
  pub availability : List Bool

-- `OwnedMemoryBlock`.
pub record Block : Type 0 where
  pub allocator : Option ℕ
  pub address : ℕ
  pub size : ℕ

abbrev pub no_block : Block
no_block = record { allocator = none; address = 0; size = 0 }

-- The loop of the constructor: the numbers below `n`, the last one at the back.
unfoldable pub count_down : ℕ → List ℕ
count_down zero = []
count_down (suc n) = n ∷ count_down n

unfoldable pub all_free : ℕ → List Bool
all_free zero = []
all_free (suc n) = true ∷ all_free n

-- The constructor, with the address that `new` returns.
unfoldable pub new_allocator : ℕ → ℕ → ℕ → ℕ → Allocator
unfolding count_down all_free
new_allocator id address pool_bits block_bits = record {
  id = id;
  pool_bits = pool_bits;
  block_bits = block_bits;
  pool_size = 2 ^ pool_bits;
  block_size = 2 ^ block_bits;
  blocks = 2 ^ (pool_bits - block_bits);
  rdma_lkey = 0;
  memory = address;
  available_blocks = count_down (2 ^ (pool_bits - block_bits));
  availability = all_free (2 ^ (pool_bits - block_bits));
}

-- What a move leaves of an allocator.
unfoldable pub moved_from : Allocator → Allocator
moved_from a = record {
  id = a.id;
  pool_bits = 0;
  block_bits = 0;
  pool_size = 0;
  block_size = 0;
  blocks = 0;
  rdma_lkey = 0;
  memory = 0;
  available_blocks = [];
  availability = [];
}

-- The move constructor: the allocator at the new place, and what is left of the old one.
unfoldable pub move_allocator : ℕ → Allocator → Allocator × Allocator
unfolding moved_from
move_allocator id a = (record a { id = id }, moved_from a)

-- `EnsureNonEmpty` of both classes.
unfoldable pub ensure_memory : Allocator → Outcome (Unit {0})
ensure_memory a = require (not (a.memory == 0)) out_of_range

unfoldable pub ensure_block : Block → Outcome (Unit {0})
ensure_block b = elim b.allocator [ none ↦ fault out_of_range | some i ↦ ok tt ]

-- `Allocate` of a block that is available.
unfoldable pub take_block : Allocator → List ℕ → Outcome (Block × Allocator)
take_block a [] = fault bad_alloc
take_block a (i ∷ rest) = ok (
  record { allocator = some a.id; address = a.memory + i * 2 ^ a.block_bits; size = a.block_size },
  record a { available_blocks = rest; availability = set a.availability i false },
)

-- `Allocate`.
unfoldable pub allocate : Allocator → Outcome (Block × Allocator)
unfolding ensure_memory take_block
allocate a = ensure_memory a >> take_block a a.available_blocks

-- The locked part of `Free`.
unfoldable pub put_back : ℕ → Allocator → Outcome Allocator
put_back i a = do
  available ← or_fault (get_elem? a.availability i) undefined
  require (not available) invalid_argument
  ok (record a {
    availability = set a.availability i true;
    available_blocks = i ∷ a.available_blocks;
  })

-- The block's index, after the checks of `Free`.
unfoldable pub block_index : Block → Allocator → Outcome ℕ
block_index b a = do
  require (leb a.memory b.address) out_of_range
  let offset = b.address - a.memory
  require (leb offset a.pool_size) out_of_range
  require (offset % 2 ^ a.block_bits == 0) invalid_argument
  ok (offset / 2 ^ a.block_bits)

unfoldable pub is_own : Block → Allocator → Bool
is_own b a = elim b.allocator [ none ↦ false | some i ↦ i == a.id ]

-- `Free`: the block is empty afterwards.
unfoldable pub free : Block → Allocator → Outcome (Block × Allocator)
unfolding ensure_memory is_own block_index put_back
free b a = do
  ensure_memory a
  require (is_own b a) invalid_argument
  i ← block_index b a
  a' ← put_back i a
  ok (no_block, a')

-- The destructor of a block, for its allocator.
unfoldable pub destroy_block : Block → Allocator → Outcome Allocator
unfolding free
destroy_block b a = elim b.allocator [ none ↦ ok a | some i ↦ free b a >>= λ r. ok r.1 ]

-- The move of a block: the new one, and what is left of the old one.
unfoldable pub move_block : Block → Block × Block
move_block b = (b, no_block)

-- `MessageView`: the first 4 bytes of a block hold the length of the rest. `stored` is that number.
abbrev pub length_bytes : ℕ
length_bytes = 4

unfoldable pub max_bytes_length : Block → Outcome ℕ
unfolding ensure_block
max_bytes_length b = ensure_block b >> ok (b.size - length_bytes)

unfoldable pub set_bytes_length : ℕ → Block → Outcome ℕ
unfolding ensure_block
set_bytes_length n b = do ensure_block b; require (leb (n + length_bytes) b.size) out_of_range; ok n

unfoldable pub total_length : ℕ → ℕ
total_length stored = length_bytes + stored

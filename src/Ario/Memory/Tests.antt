-- ===== src/Ario/Memory/Tests.antt =====
-- memory.cpp on a pool of four blocks of 16 bytes.
use nexuslb.Prelude.{
  ℕ, ◌+◌, ◌≡◌, refl, ◌⊎◌, true, false, [], ◌∷◌, ◌==◌, length, contains, ok, fault, bad_alloc,
  undefined, arith,
}
use nexuslb.Ario.Memory.{
  Allocator, Block, no_block, new_allocator, count_down, all_free, allocate, ensure_memory,
  take_block, free,
}
use nexuslb.Ario.Memory.Valid.{IsValid, block_at, free-allocate, free_at_end}
use nexuslb.Ario.Memory.Owned.{
  Heap, new_heap, Reach, starts, goes, allocates, Apart, Within, pool_safe, new_allocator-IsValid,
}

abbrev pool : Allocator
pool = new_allocator 1 4096 6 4

abbrev one_out : Heap
one_out = record {
  allocator = record pool {
    available_blocks = 2 ∷ 1 ∷ 0 ∷ [];
    availability = true ∷ true ∷ true ∷ false ∷ [];
  };
  held = 3 ∷ [];
}

pool-IsValid : IsValid pool
pool-IsValid = new_allocator-IsValid 1 4096 6 4 (omega arith) (omega arith)

top_block : pool.available_blocks ≡ 3 ∷ 2 ∷ 1 ∷ 0 ∷ []
unfolding new_allocator count_down
top_block = refl

first_taken : allocate pool ≡ ok (block_at pool 3, one_out.allocator)
unfolding new_allocator count_down all_free allocate ensure_memory take_block
first_taken = refl

one_out_reached : Reach (new_heap 1 4096 6 4) one_out
one_out_reached = goes starts (allocates 3 (2 ∷ 1 ∷ 0 ∷ []) one_out.allocator top_block first_taken)

pool_safe_example :
    ((i j : ℕ)
      → contains i one_out.held ≡ true
      → contains j one_out.held ≡ true
      → (i == j) ≡ false
      → Apart (block_at one_out.allocator i) (block_at one_out.allocator j))
    × ((i : ℕ)
        → contains i one_out.held ≡ true
        → Within one_out.allocator (block_at one_out.allocator i))
    × ((i : ℕ)
        → contains i one_out.held ≡ true
        → (a : Allocator) × (free (block_at one_out.allocator i) one_out.allocator
            ≡ ok (no_block, a)))
    × (((length one_out.held ≡ one_out.allocator.blocks)
          × (allocate one_out.allocator ≡ fault bad_alloc))
        ⊎ ((i : ℕ) × (a : Allocator) × (allocate one_out.allocator
              ≡ ok (block_at one_out.allocator i, a))
            × (contains i one_out.held ≡ false)))
pool_safe_example = pool_safe 1 4096 6 4 one_out (omega arith) (omega arith) one_out_reached

free-allocate_example :
    (b : Block) × (a' : Allocator) × (allocate pool ≡ ok (b, a'))
    × (free b a' ≡ ok (no_block, pool))
free-allocate_example = free-allocate pool 3 (2 ∷ 1 ∷ 0 ∷ []) pool-IsValid top_block

free_at_end_example :
    (free (block_at pool pool.blocks) pool ≡ fault undefined)
    × ((block_at pool pool.blocks).address ≡ pool.memory + pool.pool_size)
free_at_end_example = free_at_end pool pool-IsValid

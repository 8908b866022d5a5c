-- ===== src/Ario/Memory/Valid.antt =====
-- The allocator of memory.cpp between its calls.
use nexuslb.Prelude.{
  ℕ, zero, suc, ◌+◌, ◌-◌, ◌*◌, ◌/◌, ◌%◌, ◌^◌, ◌≤◌, ◌<◌, ◌≡◌, refl, sym, ap, subst, ◌∙◌, inl, inr,
  Bool, true, false, Option, none, some, List, [], ◌∷◌, ◌==◌, ==_iff, leb, le→leb, length,
  length-set, contains, IsDistinct, get_elem?, get_elem?-past, set, set-get, set-set_back, ok,
  fault, out_of_range, invalid_argument, undefined, require, ◌>>◌, arith, Bool-cases,
}
use native.Mathlib.Nat.{mul-div_cancel, mul-mod_left}
use nexuslb.Ario.Memory.{
  Allocator, Block, no_block, ensure_memory, take_block, allocate, put_back, block_index, is_own,
  free,
}

-- Whether a block is free, by the flags.
abbrev pub is_free : Option Bool → Bool
is_free none = false
is_free (some b) = b

pub record IsValid (a : Allocator) : Type 0 where
  pub memory_set : (a.memory == 0) ≡ false
  pub positive : 0 < 2 ^ a.block_bits
  pub block_sized : a.block_size ≡ 2 ^ a.block_bits
  pub pool_sized : a.pool_size ≡ a.blocks * 2 ^ a.block_bits
  pub flagged : length a.availability ≡ a.blocks
  pub distinct : IsDistinct a.available_blocks
  pub matched : (i : ℕ) → contains i a.available_blocks ≡ is_free (get_elem? a.availability i)

-- The block with an index.
abbrev pub block_at : Allocator → ℕ → Block
block_at a i = record {
  allocator = some a.id;
  address = a.memory + i * 2 ^ a.block_bits;
  size = a.block_size;
}

-- The allocator without a block, and with one more.
abbrev pub taken : Allocator → ℕ → List ℕ → Allocator
taken a i rest = record a { available_blocks = rest; availability = set a.availability i false }

abbrev pub given : Allocator → ℕ → Allocator
given a i = record a {
  availability = set a.availability i true;
  available_blocks = i ∷ a.available_blocks;
}

pub is_free-true : (o : Option Bool) → is_free o ≡ true → o ≡ some true
is_free-true none h = cc
is_free-true (some b) h = cc

pub flag_below : (xs : List Bool) (i : ℕ) (b : Bool) → get_elem? xs i ≡ some b → i < length xs
flag_below [] i b h = absurd (cc)
flag_below (x ∷ xs) zero b h = omega arith
flag_below (x ∷ xs) (suc i) b h = omega (arith, flag_below xs i b h)

taken-matched :
    (flags : List Bool) (i : ℕ) (rest : List ℕ) (j : ℕ)
    → IsDistinct (i ∷ rest)
    → get_elem? flags i ≡ some true
    → contains j (i ∷ rest) ≡ is_free (get_elem? flags j)
    → contains j rest ≡ is_free (get_elem? (set flags i false) j)
taken-matched flags i rest j d e m = elim (Bool-cases (i == j)) [
  | inl q ↦
      let same : i ≡ j = (==_iff i j).0 q in
      rw (set-get flags i j false true e, q) (subst (λ k. contains k rest ≡ false) same d.0)
  | inr q ↦ rw (set-get flags i j false true e, q) (ground (arith, m))
]

given-matched :
    (flags : List Bool) (i : ℕ) (free_ones : List ℕ) (j : ℕ)
    → get_elem? flags i ≡ some false
    → contains j free_ones ≡ is_free (get_elem? flags j)
    → contains j (i ∷ free_ones) ≡ is_free (get_elem? (set flags i true) j)
given-matched flags i free_ones j e m = rw (set-get flags i j true false e) (ground (arith, m))

-- The index on top is free.
pub top_free :
    (a : Allocator) (i : ℕ) (rest : List ℕ)
    → IsValid a
    → a.available_blocks ≡ i ∷ rest
    → get_elem? a.availability i ≡ some true
top_free a i rest h e =
    let there : contains i a.available_blocks ≡ true = rw e (ground arith) in
    is_free-true (get_elem? a.availability i) (sym (h.matched i) ∙ there)

pub taken-IsValid :
    (a : Allocator) (i : ℕ) (rest : List ℕ)
    → IsValid a
    → a.available_blocks ≡ i ∷ rest
    → IsValid (taken a i rest)
taken-IsValid a i rest h e = record {
  memory_set = h.memory_set;
  positive = h.positive;
  block_sized = h.block_sized;
  pool_sized = h.pool_sized;
  flagged = length-set a.availability i false ∙ h.flagged;
  distinct = split.1;
  matched = λ j.
      taken-matched a.availability i rest j split (top_free a i rest h e)
        (sym (ap (contains j) e) ∙ h.matched j);
}
  where
    split : IsDistinct (i ∷ rest)
    split = subst IsDistinct e h.distinct

pub given-IsValid :
    (a : Allocator) (i : ℕ)
    → IsValid a
    → get_elem? a.availability i ≡ some false
    → IsValid (given a i)
given-IsValid a i h e = record {
  memory_set = h.memory_set;
  positive = h.positive;
  block_sized = h.block_sized;
  pool_sized = h.pool_sized;
  flagged = length-set a.availability i true ∙ h.flagged;
  distinct = (h.matched i ∙ ap is_free e, h.distinct);
  matched = λ j. given-matched a.availability i a.available_blocks j e (h.matched j);
}

-- `Allocate` takes the top, or throws if there is none.
pub allocate-ok :
    (a : Allocator) (i : ℕ) (rest : List ℕ)
    → IsValid a
    → a.available_blocks ≡ i ∷ rest
    → allocate a ≡ ok (block_at a i, taken a i rest)
unfolding allocate ensure_memory take_block
allocate-ok a i rest h e = rw (h.memory_set, e) refl

-- The checks of `Free` find the index of a block.
block_index-ok :
    (a : Allocator) (i : ℕ) → IsValid a → i ≤ a.blocks → block_index (block_at a i) a ≡ ok i
unfolding block_index
block_index-ok a i h lt = by_size (2 ^ a.block_bits) h.positive h.pool_sized
  where
    by_size :
        (s : ℕ)
        → 0 < s
        → a.pool_size ≡ a.blocks * s
        → (require (leb a.memory (a.memory + i * s)) out_of_range
            >> (require (leb (a.memory + i * s - a.memory) a.pool_size) out_of_range
                >> (require ((a.memory + i * s - a.memory) % s == 0) invalid_argument
                    >> ok ((a.memory + i * s - a.memory) / s))))
          ≡ ok i
    by_size s pos e =
        let off : a.memory + i * s - a.memory ≡ i * s = omega arith in
        let base : a.memory ≤ a.memory + i * s = omega arith in
        let le : i * s ≤ a.pool_size = grind (arith, e) in
        let mod0 : i * s % s ≡ 0 = mul-mod_left i s in
        rw (le→leb _ _ (base), off, mul-div_cancel i pos, mod0, le→leb _ _ le) refl

pub free-ok :
    (a : Allocator) (i : ℕ)
    → IsValid a
    → get_elem? a.availability i ≡ some false
    → free (block_at a i) a ≡ ok (no_block, given a i)
unfolding free ensure_memory is_own put_back
free-ok a i h e =
    let lt : i < a.blocks = omega (arith, flag_below a.availability i false e, h.flagged) in
    let own : (a.id == a.id) ≡ true = ground arith in
    rw (h.memory_set, own, block_index-ok a i h (omega arith), e) refl

-- A block that was just taken and is freed at once leaves the allocator of a valid pool as it was.
pub free-allocate :
    (a : Allocator) (i : ℕ) (rest : List ℕ)
    → IsValid a
    → a.available_blocks ≡ i ∷ rest
    → (b : Block) × (a' : Allocator) × (allocate a ≡ ok (b, a')) × (free b a' ≡ ok (no_block, a))
free-allocate a i rest h e = (
  block_at a i,
  taken a i rest,
  allocate-ok a i rest h e,
  free-ok (taken a i rest) i (taken-IsValid a i rest h e) flag ∙ ap (λ b. ok (no_block, b)) same,
)
  where
    top : get_elem? a.availability i ≡ some true
    top = top_free a i rest h e

    flag : get_elem? (set a.availability i false) i ≡ some false
    flag = set-get a.availability i i false true top ∙ (ground arith)

    same : given (taken a i rest) i ≡ a
    same = cc (set-set_back a.availability i false true top, e)

-- The check of a block's place lets the address just past a valid pool through, the memory's address
-- and the pool's size: the flag past the end is read.
pub free_at_end :
    (a : Allocator)
    → IsValid a
    → (free (block_at a a.blocks) a ≡ fault undefined)
      × ((block_at a a.blocks).address ≡ a.memory + a.pool_size)
unfolding free ensure_memory is_own put_back
free_at_end a h =
    let own : (a.id == a.id) ≡ true = ground arith in
    let past = get_elem?-past a.availability a.blocks (omega (arith, h.flagged)) in
    (
      rw (h.memory_set, own, block_index-ok a a.blocks h (omega arith), past) refl,
      omega (arith, h.pool_sized),
    )

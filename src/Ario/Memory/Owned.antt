-- ===== src/Ario/Memory/Owned.antt =====
-- The blocks of a pool of memory.cpp that are handed out, over any sequence of calls.
use nexuslb.Prelude.{
  ℕ, zero, suc, ◌+◌, ◌-◌, ◌*◌, ◌^◌, ◌≤◌, ◌<◌, ◌≡◌, refl, sym, ap, subst, ◌∙◌, ◌⊎◌, inl, inr, Bool,
  true, false, Option, some, List, [], ◌∷◌, ◌==◌, ==_iff, ltb, length, contains, IsDistinct,
  get_elem?, set, set-get, if◌then◌else◌, ok, fault, bad_alloc, arith, Bool-cases,
}
use native.Mathlib.Nat.{two-pow-succ, one-le-pow, mul-le-mul_right}
use native.Mathlib.Decide.{dec_lt}
use native.Mathlib.Numerals.{unary_clauses}
use nexuslb.Ario.Memory.{
  Allocator, Block, no_block, allocate, ensure_memory, take_block, free, new_allocator, count_down,
  all_free,
}
use nexuslb.Ario.Memory.Valid.{
  IsValid, is_free, block_at, taken, given, top_free, taken-IsValid, given-IsValid, allocate-ok,
  free-ok, flag_below,
}

abbrev without : ℕ → List ℕ → List ℕ
without k [] = []
without k (j ∷ js) = if j == k then js else j ∷ without k js

contains-without :
    (i k : ℕ) (js : List ℕ)
    → IsDistinct js
    → contains i (without k js) ≡ (if k == i then false else contains i js)
contains-without i k [] d = ground arith
contains-without i k (j ∷ js) d = ground (arith, contains-without i k js d.1, contains-eq i k js)
  where
    contains-eq : (i k : ℕ) (js : List ℕ) → (i == k) ≡ true → contains i js ≡ contains k js
    contains-eq i k js e = ap (λ n. contains n js) ((==_iff i k).0 e)

IsDistinct-without : (k : ℕ) (js : List ℕ) → IsDistinct js → IsDistinct (without k js)
IsDistinct-without k [] d = tt
IsDistinct-without k (j ∷ js) d =
    ground (arith, IsDistinct-without k js d.1, contains-without j k js d.1)

length-without :
    (k : ℕ) (js : List ℕ) → contains k js ≡ true → length (without k js) + 1 ≡ length js
length-without k [] h = cc
length-without k (j ∷ js) h = ground (arith, length-without k js)

-- A pool, and the indices of the blocks that are handed out.
pub record Heap : Type 0 where
  pub allocator : Allocator
  pub held : List ℕ

-- Calls of `Allocate` and `Free` that return: of the index on top, and of a block handed out.
pub data Step (h : Heap) : Heap → Type 0 where
  allocates :
      (i : ℕ) (rest : List ℕ) (a : Allocator)
      → h.allocator.available_blocks ≡ i ∷ rest
      → allocate h.allocator ≡ ok (block_at h.allocator i, a)
      → Step h (record { allocator = a; held = i ∷ h.held })
  frees :
      (i : ℕ) (a : Allocator)
      → contains i h.held ≡ true
      → free (block_at h.allocator i) h.allocator ≡ ok (no_block, a)
      → Step h (record { allocator = a; held = without i h.held })

abbrev pub new_heap : ℕ → ℕ → ℕ → ℕ → Heap
new_heap id address pool_bits block_bits = record {
  allocator = new_allocator id address pool_bits block_bits;
  held = [];
}

pub data Reach (start : Heap) : Heap → Type 0 where
  starts : Reach start start
  goes : {h h' : Heap} → Reach start h → Step h h' → Reach start h'

-- A valid pool whose blocks are each free or handed out once.
record IsShared (h : Heap) : Type 0 where
  valid : IsValid h.allocator
  once : IsDistinct h.held
  in_use : (i : ℕ) → contains i h.held ≡ true → get_elem? h.allocator.availability i ≡ some false
  counted : length h.allocator.available_blocks + length h.held ≡ h.allocator.blocks

held-taken :
    (a : Allocator) (i : ℕ) (held : List ℕ)
    → get_elem? a.availability i ≡ some true
    → ((j : ℕ) → contains j held ≡ true → get_elem? a.availability j ≡ some false)
    → (j : ℕ) → contains j (i ∷ held) ≡ true
    → get_elem? (set a.availability i false) j ≡ some false
held-taken a i held e h j c = elim (Bool-cases (i == j)) [
  | inl q ↦ set-get a.availability i j false true e ∙ rw q refl
  | inr q ↦ set-get a.availability i j false true e ∙ rw q (h j (ground arith))
]

not_held : (o : Option Bool) (c : Bool) → o ≡ some true → (c ≡ true → o ≡ some false) → c ≡ false
not_held o true e h = let f = h refl in cc
not_held o false e h = refl

allocates-IsShared :
    (h : Heap) (i : ℕ) (rest : List ℕ)
    → IsShared h
    → h.allocator.available_blocks ≡ i ∷ rest
    → IsShared (record { allocator = taken h.allocator i rest; held = i ∷ h.held })
allocates-IsShared h i rest s e = record {
  valid = taken-IsValid h.allocator i rest s.valid e;
  once = (
    not_held (get_elem? h.allocator.availability i) (contains i h.held) top (s.in_use i),
    s.once,
  );
  in_use = held-taken h.allocator i h.held top s.in_use;
  counted = omega (arith, s.counted, ap length e);
}
  where
    top : get_elem? h.allocator.availability i ≡ some true
    top = top_free h.allocator i rest s.valid e

frees-IsShared :
    (h : Heap) (i : ℕ)
    → IsShared h
    → contains i h.held ≡ true
    → IsShared (record { allocator = given h.allocator i; held = without i h.held })
frees-IsShared h i s c = record {
  valid = given-IsValid h.allocator i s.valid (s.in_use i c);
  once = IsDistinct-without i h.held s.once;
  in_use = λ j k.
      let other : ((i == j) ≡ false) × (contains j h.held ≡ true) =
        ground (arith, contains-without j i h.held s.once) in
      set-get h.allocator.availability i j true false (s.in_use i c)
      ∙ rw other.0 (s.in_use j other.1);
  counted = omega (arith, s.counted, length-without i h.held c);
}

Step-IsShared : (h h' : Heap) → Step h h' → IsShared h → IsShared h'
Step-IsShared h h' (allocates i rest a e r) s =
    let same : taken h.allocator i rest ≡ a = cc (allocate-ok h.allocator i rest s.valid e) in
    subst (λ b. IsShared (record { allocator = b; held = i ∷ h.held })) same
      (allocates-IsShared h i rest s e)
Step-IsShared h h' (frees i a c r) s =
    let same : given h.allocator i ≡ a = cc (free-ok h.allocator i s.valid (s.in_use i c)) in
    subst (λ b. IsShared (record { allocator = b; held = without i h.held })) same
      (frees-IsShared h i s c)

length-count_down : (n : ℕ) → length (count_down n) ≡ n
unfolding count_down
length-count_down zero = refl
length-count_down (suc n) = ap suc (length-count_down n)

length-all_free : (n : ℕ) → length (all_free n) ≡ n
unfolding all_free
length-all_free zero = refl
length-all_free (suc n) = ap suc (length-all_free n)

contains-count_down : (i n : ℕ) → contains i (count_down n) ≡ ltb i n
unfolding count_down
contains-count_down i zero = ground arith
contains-count_down i (suc n) = ground (arith, contains-count_down i n)

IsDistinct-count_down : (n : ℕ) → IsDistinct (count_down n)
unfolding count_down
IsDistinct-count_down zero = tt
IsDistinct-count_down (suc n) = (ground (arith, contains-count_down n n), IsDistinct-count_down n)

is_free-all_free : (i n : ℕ) → is_free (get_elem? (all_free n) i) ≡ ltb i n
unfolding all_free
is_free-all_free i zero = ground arith
is_free-all_free zero (suc n) = ground arith
is_free-all_free (suc i) (suc n) = ground (arith, is_free-all_free i n)

power_sum : (a b : ℕ) → 2 ^ (a + b) ≡ 2 ^ a * 2 ^ b
power_sum a zero = simp unary_clauses (omega arith)
power_sum a (suc b) =
    let n : a + suc b ≡ suc (a + b) = omega arith in
    let l : 2 ^ suc (a + b) ≡ 2 ^ (a + b) + 2 ^ (a + b) = two-pow-succ (a + b) in
    let r : 2 ^ suc b ≡ 2 ^ b + 2 ^ b = two-pow-succ b in rw (n, l, r, power_sum a b) (grind arith)

new_heap-IsShared :
    (id address pool_bits block_bits : ℕ)
    → 0 < address
    → block_bits ≤ pool_bits
    → IsShared (new_heap id address pool_bits block_bits)
unfolding new_allocator
new_heap-IsShared id address pool_bits block_bits pos le = record {
  valid = record {
    memory_set = ground arith;
    positive = one-le-pow block_bits 2 (omega arith);
    block_sized = refl;
    pool_sized = ap (λ n. 2 ^ n) (exponent) ∙ power_sum (pool_bits - block_bits) block_bits;
    flagged = length-all_free (2 ^ (pool_bits - block_bits));
    distinct = IsDistinct-count_down (2 ^ (pool_bits - block_bits));
    matched = λ i.
        contains-count_down i (2 ^ (pool_bits - block_bits))
        ∙ sym (is_free-all_free i (2 ^ (pool_bits - block_bits)));
  };
  once = tt;
  in_use = λ i c. absurd (cc);
  counted = omega (arith, length-count_down (2 ^ (pool_bits - block_bits)));
}
  where
    exponent : pool_bits ≡ pool_bits - block_bits + block_bits
    exponent = omega arith

Reach-IsShared : {h h' : Heap} → Reach h h' → IsShared h → IsShared h'
Reach-IsShared starts s = s
Reach-IsShared (goes {h} {h'} r step) s = Step-IsShared h h' step (Reach-IsShared r s)

-- Two blocks of a pool do not overlap, and lie in its memory.
abbrev pub Apart : Block → Block → Type 0
Apart b c = (b.address + b.size ≤ c.address) ⊎ (c.address + c.size ≤ b.address)

abbrev pub Within : Allocator → Block → Type 0
Within a b = (a.memory ≤ b.address) × (b.address + b.size ≤ a.memory + a.pool_size)

apart :
    (a : Allocator) (i j : ℕ)
    → a.block_size ≡ 2 ^ a.block_bits
    → (i == j) ≡ false
    → Apart (block_at a i) (block_at a j)
apart a i j e n = by_order (a.block_size) e (dec_lt i j)
  where
    by_order :
        (s : ℕ)
        → s ≡ 2 ^ a.block_bits
        → Dec (i < j)
        → (a.memory + i * 2 ^ a.block_bits + s ≤ a.memory + j * 2 ^ a.block_bits)
          ⊎ (a.memory + j * 2 ^ a.block_bits + s ≤ a.memory + i * 2 ^ a.block_bits)
    by_order s q (yes lt) =
        let up : suc i * 2 ^ a.block_bits ≤ j * 2 ^ a.block_bits =
          mul-le-mul_right (2 ^ a.block_bits) lt in
        inl (grind (arith, q))
    by_order s q (no ge) =
        let lt : j < i = ground arith in
        let up : suc j * 2 ^ a.block_bits ≤ i * 2 ^ a.block_bits =
          mul-le-mul_right (2 ^ a.block_bits) lt in
        inr (grind (arith, q))

within :
    (a : Allocator) (i : ℕ)
    → IsValid a
    → get_elem? a.availability i ≡ some false
    → Within a (block_at a i)
within a i v e =
    let lt : i < a.blocks = omega (arith, flag_below a.availability i false e, v.flagged) in
    let up : suc i * 2 ^ a.block_bits ≤ a.blocks * 2 ^ a.block_bits =
      mul-le-mul_right (2 ^ a.block_bits) lt in
    (omega arith, grind (arith, v.block_sized, v.pool_sized))

allocate-full : (a : Allocator) → IsValid a → a.available_blocks ≡ [] → allocate a ≡ fault bad_alloc
unfolding allocate ensure_memory take_block
allocate-full a v e = rw (v.memory_set, e) refl

-- In whatever order threads take and free blocks of a new pool: two blocks handed out never overlap
-- and lie in the pool's memory, `Free` of a block handed out succeeds, and `Allocate` throws exactly
-- when all blocks are handed out, and else hands out one that is not.
pub pool_safe :
    (id address pool_bits block_bits : ℕ) (h : Heap)
    → 0 < address
    → block_bits ≤ pool_bits
    → Reach (new_heap id address pool_bits block_bits) h
    → ((i j : ℕ)
        → contains i h.held ≡ true
        → contains j h.held ≡ true
        → (i == j) ≡ false
        → Apart (block_at h.allocator i) (block_at h.allocator j))
      × ((i : ℕ) → contains i h.held ≡ true → Within h.allocator (block_at h.allocator i))
      × ((i : ℕ)
          → contains i h.held ≡ true
          → (a : Allocator) × (free (block_at h.allocator i) h.allocator ≡ ok (no_block, a)))
      × (((length h.held ≡ h.allocator.blocks) × (allocate h.allocator ≡ fault bad_alloc))
          ⊎ ((i : ℕ) × (a : Allocator) × (allocate h.allocator ≡ ok (block_at h.allocator i, a))
              × (contains i h.held ≡ false)))
pool_safe id address pool_bits block_bits h pos le r = (
  (λ i j c k n. apart h.allocator i j s.valid.block_sized n),
  (λ i c. within h.allocator i s.valid (s.in_use i c)),
  (λ i c. (given h.allocator i, free-ok h.allocator i s.valid (s.in_use i c))),
  by_top h.allocator.available_blocks refl,
)
  where
    s : IsShared h
    s = Reach-IsShared r (new_heap-IsShared id address pool_bits block_bits pos le)

    by_top :
        (free_ones : List ℕ)
        → h.allocator.available_blocks ≡ free_ones
        → ((length h.held ≡ h.allocator.blocks) × (allocate h.allocator ≡ fault bad_alloc))
          ⊎ ((i : ℕ) × (a : Allocator) × (allocate h.allocator ≡ ok (block_at h.allocator i, a))
              × (contains i h.held ≡ false))
    by_top [] e = inl (omega (arith, s.counted, ap length e), allocate-full h.allocator s.valid e)
    by_top (i ∷ rest) e = inr (
      i,
      taken h.allocator i rest,
      allocate-ok h.allocator i rest s.valid e,
      not_held (get_elem? h.allocator.availability i) (contains i h.held)
          (top_free h.allocator i rest s.valid e) (s.in_use i),
    )

pub new_allocator-IsValid :
    (id address pool_bits block_bits : ℕ)
    → 0 < address
    → block_bits ≤ pool_bits
    → IsValid (new_allocator id address pool_bits block_bits)
new_allocator-IsValid id address pool_bits block_bits pos le =
    (new_heap-IsShared id address pool_bits block_bits pos le).valid

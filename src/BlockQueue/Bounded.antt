-- ===== src/BlockQueue/Bounded.antt =====
-- The queues of block_queue.h under calls of several threads, with and without a bound.
use nexuslb.Prelude.{
  Bool, false, Option, sym, ap, ◌∙◌, ◌++◌, count, count-append, ℕ, suc, ◌+◌, ◌≤◌, ◌<◌, ◌≡◌, refl,
  subst, none, some, List, [], ◌∷◌, length, All, arith,
}
use nexuslb.BlockQueue.{
  BlockQueue, DeadlineItem, pop_by_deadline, push_for, pop_for, may_push, push, pop, is_later,
  place, place_all, batch_push,
}

module _ {ℓ} {A : Type ℓ} where
  -- Calls that return, of all threads, in the order of their critical sections.
  pub data Reaches : BlockQueue A → BlockQueue A → Type ℓ where
    stays : (q : BlockQueue A) → Reaches q q
    pushes : (a : A) (q r s : BlockQueue A) → push a q ≡ some r → Reaches r s → Reaches q s
    pops : (a : A) (q r s : BlockQueue A) → pop q ≡ some (a, r) → Reaches r s → Reaches q s
    pushes_for :
        (a : A) (b : Bool) (q r s : BlockQueue A)
        → push_for a q ≡ (b, r)
        → Reaches r s
        → Reaches q s
    pops_for :
        (o : Option A) (q r s : BlockQueue A) → pop_for q ≡ (o, r) → Reaches r s → Reaches q s

  refused : (a : A) (q : BlockQueue A) → 0 < q.max_size → q.queue ≡ [] → push a q ≡ none
  unfolding push may_push
  refused a q m e = ground (arith, e)

  refused_for :
      (a : A) (q : BlockQueue A) → 0 < q.max_size → q.queue ≡ [] → push_for a q ≡ (false, q)
  unfolding push_for may_push
  refused_for a q m e = ground (arith, e)

  none_out_for : (q : BlockQueue A) → q.queue ≡ [] → pop_for q ≡ (none, q)
  unfolding pop_for
  none_out_for q e =
      ap (λ xs. elim xs [ [] ↦ (none, q) | a ∷ rest ↦ (some a, record q { queue = rest }) ]) e

  none_out : (q : BlockQueue A) → q.queue ≡ [] → pop q ≡ none
  unfolding pop
  none_out q e = rw e refl

  -- Of a queue that has a bound and is empty, whatever calls of all threads with and without a time
  -- limit have returned: a push and a pop without a limit wait, and with a limit the push returns
  -- false and the pop a null pointer.
  pub bounded_blocks :
      (q s : BlockQueue A)
      → 0 < q.max_size
      → q.queue ≡ []
      → Reaches q s
      → ((a : A) → (push a s ≡ none) × (push_for a s ≡ (false, s)))
        × (pop s ≡ none)
        × (pop_for s ≡ (none, s))
  bounded_blocks q s m e (stays t) =
      ((λ a. (refused a t m e, refused_for a t m e)), none_out t e, none_out_for t e)
  bounded_blocks q s m e (pushes a t r u p rest) = let n = refused a t m e in absurd (cc)
  bounded_blocks q s m e (pops a t r u p rest) = let n = none_out t e in absurd (cc)
  bounded_blocks q s m e (pushes_for a b t r u p rest) =
      let same : t ≡ r = ap (λ x. x.1) (sym (refused_for a t m e) ∙ p) in
      bounded_blocks r u (subst (λ x. 0 < x.max_size) same m) (subst (λ x. x.queue ≡ []) same e)
        rest
  bounded_blocks q s m e (pops_for o t r u p rest) =
      let same : t ≡ r = ap (λ x. x.1) (sym (none_out_for t e) ∙ p) in
      bounded_blocks r u (subst (λ x. 0 < x.max_size) same m) (subst (λ x. x.queue ≡ []) same e)
        rest

-- Earliest deadline first.
abbrev pub IsOrdered : List DeadlineItem → Type 0
IsOrdered [] = Unit
IsOrdered (i ∷ is) = All (λ j. i.deadline ≤ j.deadline) is × IsOrdered is

weaken_due :
    (i j : DeadlineItem) (is : List DeadlineItem)
    → i.deadline ≤ j.deadline
    → All (λ k. j.deadline ≤ k.deadline) is
    → All (λ k. i.deadline ≤ k.deadline) is
weaken_due i j [] h a = tt
weaken_due i j (k ∷ is) h a = (omega arith, weaken_due i j is h a.1)

due_before_place :
    (d : ℕ) (i : DeadlineItem) (is : List DeadlineItem)
    → d ≤ i.deadline
    → All (λ k. d ≤ k.deadline) is
    → All (λ k. d ≤ k.deadline) (place i is)
unfolding place is_later
due_before_place d i [] h a = (h, tt)
due_before_place d i (j ∷ is) h a = ground (arith, due_before_place d i is h a.1)

place-IsOrdered :
    (i : DeadlineItem) (is : List DeadlineItem) → IsOrdered is → IsOrdered (place i is)
unfolding place is_later
place-IsOrdered i [] o = (tt, tt)
place-IsOrdered i (j ∷ is) o =
    ground (arith, place-IsOrdered i is o.1, weaken_due i j is, due_before_place j.deadline i is)

place_all-IsOrdered : (is js : List DeadlineItem) → IsOrdered js → IsOrdered (place_all is js)
unfolding place_all
place_all-IsOrdered [] js o = o
place_all-IsOrdered (i ∷ is) js o = place_all-IsOrdered is (place i js) (place-IsOrdered i js o)

-- How many items pass a test.
count-place :
    (p : DeadlineItem → Bool) (i : DeadlineItem) (is : List DeadlineItem)
    → count p (place i is) ≡ count p (i ∷ is)
unfolding place
count-place p i [] = refl
count-place p i (j ∷ is) = ground (arith, count-place p i is)

count-place_all :
    (p : DeadlineItem → Bool) (is js : List DeadlineItem)
    → count p (place_all is js) ≡ count p is + count p js
unfolding place_all
count-place_all p [] js = omega arith
count-place_all p (i ∷ is) js =
    ground (arith, count-place_all p is (place i js), count-place p i js)

length-place : (i : DeadlineItem) (is : List DeadlineItem) → length (place i is) ≡ suc (length is)
unfolding place
length-place i [] = refl
length-place i (j ∷ is) = ground (arith, length-place i is)

length-place_all : (is js : List DeadlineItem) → length (place_all is js) ≡ length is + length js
unfolding place_all
length-place_all [] js = omega arith
length-place_all (i ∷ is) js = omega (arith, length-place_all is (place i js), length-place i js)

-- What `pop` returns: the item on top, which is due first. It and the rest are the given items, each
-- as often as it is given.
abbrev pub Due : List DeadlineItem → BlockQueue DeadlineItem → Type 0
Due items q =
    (i : DeadlineItem) × (r : BlockQueue DeadlineItem) × (pop_by_deadline q ≡ some (i, r))
    × All (λ j. i.deadline ≤ j.deadline) r.queue
    × IsOrdered r.queue
    × ((p : DeadlineItem → Bool) → count p (i ∷ r.queue) ≡ count p items)

pop-Due :
    (items : List DeadlineItem) (q : BlockQueue DeadlineItem)
    → IsOrdered q.queue
    → 0 < length q.queue
    → ((p : DeadlineItem → Bool) → count p q.queue ≡ count p items)
    → Due items q
unfolding pop_by_deadline
pop-Due items q o l same = by_queue q.queue refl o l same
  where
    by_queue :
        (is : List DeadlineItem)
        → q.queue ≡ is
        → IsOrdered is
        → 0 < length is
        → ((p : DeadlineItem → Bool) → count p is ≡ count p items)
        → Due items q
    by_queue [] e o l c = absurd (omega arith)
    by_queue (i ∷ is) e o l c = (i, record q { queue = is }, rw e refl, o.0, o.1, c)

-- A batch that is not empty goes into a queue without bound that is in order, and then an item comes
-- out that is due no later than the rest. It and the rest are the items of batch and queue: as many of
-- them pass any test as before.
pub batch_push_pop :
    (i : DeadlineItem) (is : List DeadlineItem) (q : BlockQueue DeadlineItem)
    → q.max_size ≡ 0
    → IsOrdered q.queue
    → (r : BlockQueue DeadlineItem) × (batch_push (i ∷ is) q ≡ some r)
      × IsOrdered r.queue
      × Due ((i ∷ is) ++ q.queue) r
unfolding batch_push
batch_push_pop i is q m o =
    let l = length-place_all (i ∷ is) q.queue in
    let ordered = place_all-IsOrdered (i ∷ is) q.queue o in
    (
      record q { queue = place_all (i ∷ is) q.queue },
      rw m refl,
      ordered,
      pop-Due ((i ∷ is) ++ q.queue) (record q { queue = place_all (i ∷ is) q.queue }) ordered
          (omega (arith, l))
          (λ p. count-place_all p (i ∷ is) q.queue ∙ sym (count-append p (i ∷ is) q.queue)),
    )

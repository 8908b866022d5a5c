-- ===== src/BlockQueue/Tests.antt =====
-- block_queue.h on small queues.
use nexuslb.Prelude.{ℕ, ◌≡◌, refl, [], ◌∷◌, none, some, false, arith}
use nexuslb.BlockQueue.{
  BlockQueue, DeadlineItem, push, pop, push_for, pop_for, may_push, batch_push,
}
use nexuslb.BlockQueue.Bounded.{stays, bounded_blocks, IsOrdered, Due, batch_push_pop}

abbrev two_places : BlockQueue ℕ
two_places = record { max_size = 2; queue = [] }

first_waits : push 5 two_places ≡ none
unfolding push may_push
first_waits = refl

bounded_blocks_example :
    ((a : ℕ) → (push a two_places ≡ none) × (push_for a two_places ≡ (false, two_places)))
    × (pop two_places ≡ none)
    × (pop_for two_places ≡ (none, two_places))
bounded_blocks_example = bounded_blocks two_places two_places (omega arith) refl (stays two_places)

abbrev item : ℕ → ℕ → DeadlineItem
item n d = record { item = n; begin = 0; deadline = d }

abbrev one_item : BlockQueue DeadlineItem
one_item = record { max_size = 0; queue = item 1 50 ∷ [] }

batch_push_pop_example :
    (r : BlockQueue DeadlineItem) × (batch_push (item 2 70 ∷ item 3 20 ∷ []) one_item ≡ some r)
    × IsOrdered r.queue
    × Due (item 2 70 ∷ item 3 20 ∷ item 1 50 ∷ []) r
batch_push_pop_example = batch_push_pop (item 2 70) (item 3 20 ∷ []) one_item refl (tt, tt)
